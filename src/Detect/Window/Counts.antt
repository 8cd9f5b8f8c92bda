-- ===== src/Detect/Window/Counts.antt =====
-- The window counts the hits among the last pushes: crates/lictor-detect/src/window.rs.
use lictor.Prelude.{
  ℕ, zero, suc, ◌+◌, ◌-◌, ◌*◌, ◌/◌, ◌%◌, ◌^◌, ◌≤◌, ◌<◌, ◌≡◌, refl, ap, ◌∙◌, Bool, true, false, List,
  [], ◌∷◌, arith, bit_and-zero, bit_and, bit_or, bit_and_halve, bit_or_halve, if◌then◌else◌, take,
}
use native.Mathlib.Nat.{pow-suc, le_refl, one-le-pow, pow-le-pow_right, mod-eq_of_lt}
use Prim.Native.Nat.{bit_and-bitwise, min}
use lictor.Detect.Window.{Window, push, hits, count_ones, empty}

-- The hits of a tick sequence, the latest first, are pushed from the oldest on.
abbrev pub pushed : ℕ → List Bool → Window
pushed mask [] = empty
pushed mask (hit ∷ earlier) = push (pushed mask earlier) hit mask

-- How many of them are hits.
abbrev pub count_hits : List Bool → ℕ
count_hits [] = 0
count_hits (hit ∷ earlier) = (if hit then 1 else 0) + count_hits earlier

-- The last n hits as a number, the latest in the lowest bit.
abbrev coded : ℕ → List Bool → ℕ
coded zero bs = 0
coded (suc n) [] = 0
coded (suc n) (true ∷ bs) = 1 + 2 * coded n bs
coded (suc n) (false ∷ bs) = 2 * coded n bs

bit_or-zero : (n a : ℕ) → a ≤ n → bit_or a 0 ≡ a
bit_or-zero n zero h = refl
bit_or-zero zero (suc a) h = absurd (omega arith)
bit_or-zero (suc n) (suc a) h =
    omega (arith, bit_or_halve (suc a) 0, bit_or-zero n (suc a / 2) (omega arith))

bit_or-double : (a : ℕ) → bit_or (2 * a) 1 ≡ 1 + 2 * a
bit_or-double a =
    omega (arith, bit_or_halve (2 * a) 1, bit_or-zero (2 * a / 2) (2 * a / 2) (le_refl _))

mask_odd : (n : ℕ) → ((2 ^ suc n - 1) % 2 ≡ 1) × ((2 ^ suc n - 1) / 2 ≡ 2 ^ n - 1)
mask_odd n =
    let one = one-le-pow n 2 (omega arith) in
    (omega (arith, pow-suc 2 n, one), omega (arith, pow-suc 2 n, one))

bit_and-halves :
    (x a n : ℕ)
    → x / 2 ≡ a
    → bit_and x (2 ^ suc n - 1) ≡ min (x % 2) ((2 ^ suc n - 1) % 2) + 2 * bit_and a (2 ^ n - 1)
bit_and-halves x a n e =
    bit_and_halve x (2 ^ suc n - 1)
    ∙ ap (λ k. min (x % 2) ((2 ^ suc n - 1) % 2) + 2 * k) (rw (e, (mask_odd n).1) refl)

-- The mask of n ones keeps the last n hits.
bit_and-coded : (n m : ℕ) (bs : List Bool) → n ≤ m → bit_and (coded m bs) (2 ^ n - 1) ≡ coded n bs
bit_and-coded zero m bs h = bit_and-zero (coded m bs)
bit_and-coded (suc n) zero bs h = absurd (omega arith)
bit_and-coded (suc n) (suc m) [] h = bit_and-bitwise 0 (2 ^ suc n - 1)
bit_and-coded (suc n) (suc m) (true ∷ bs) h =
    let odd = 1 + 2 * coded m bs in
    bit_and-halves odd (coded m bs) n (omega arith)
    ∙ omega (arith, bit_and-coded n m bs (omega arith), mask_odd n)
bit_and-coded (suc n) (suc m) (false ∷ bs) h =
    let even = 2 * coded m bs in
    bit_and-halves even (coded m bs) n (omega arith)
    ∙ omega (arith, bit_and-coded n m bs (omega arith), mask_odd n)

coded-lt : (n : ℕ) (bs : List Bool) → coded n bs < 2 ^ n
coded-lt zero bs = omega arith
coded-lt (suc n) [] = one-le-pow (suc n) 2 (omega arith)
coded-lt (suc n) (true ∷ bs) = omega (arith, coded-lt n bs, pow-suc 2 n)
coded-lt (suc n) (false ∷ bs) = omega (arith, coded-lt n bs, pow-suc 2 n)

count_ones-coded :
    (k n : ℕ) (bs : List Bool) → n ≤ k → count_ones k (coded n bs) ≡ count_hits (take n bs)
unfolding count_ones
count_ones-coded zero zero bs h = refl
count_ones-coded zero (suc n) bs h = absurd (omega arith)
count_ones-coded (suc k) zero bs h = omega (arith, count_ones-coded k zero bs (omega arith))
count_ones-coded (suc k) (suc n) [] h = omega (arith, count_ones-coded k zero [] (omega arith))
count_ones-coded (suc k) (suc n) (true ∷ bs) h =
    let ih = count_ones-coded k n bs (omega arith) in
    let half : (1 + 2 * coded n bs) / 2 ≡ coded n bs = omega arith in rw half (omega (arith, ih))
count_ones-coded (suc k) (suc n) (false ∷ bs) h =
    let ih = count_ones-coded k n bs (omega arith) in
    let half : 2 * coded n bs / 2 ≡ coded n bs = omega arith in rw half (omega (arith, ih))

-- The shift of a word with at most 63 bits drops none.
shift-coded : (n : ℕ) (bs : List Bool) → n ≤ 63 → coded n bs * 2 % 2 ^ 64 ≡ 2 * coded n bs
shift-coded n bs h =
    let bound : 2 ^ n ≤ 2 ^ 63 = pow-le-pow_right (omega arith) h in
    mod-eq_of_lt (omega (arith, coded-lt n bs)) ∙ omega arith

push-coded :
    (n : ℕ) (hit : Bool) (bs : List Bool)
    → n ≤ 63
    → (push (record { bits = coded n bs }) hit (2 ^ n - 1)).bits ≡ coded n (hit ∷ bs)
unfolding push
push-coded n true bs h =
    rw (shift-coded n bs h, bit_or-double (coded n bs))
      (bit_and-coded n (suc n) (true ∷ bs) (omega arith))
push-coded n false bs h =
    rw (shift-coded n bs h, bit_or-zero (2 * coded n bs) (2 * coded n bs) (le_refl _))
      (bit_and-coded n (suc n) (false ∷ bs) (omega arith))

bits-pushed : (n : ℕ) (bs : List Bool) → n ≤ 63 → (pushed (2 ^ n - 1) bs).bits ≡ coded n bs
unfolding empty
bits-pushed zero [] h = refl
bits-pushed (suc n) [] h = refl
bits-pushed n (b ∷ bs) h =
    ap (λ k. (push (record { bits = k }) b (2 ^ n - 1)).bits) (bits-pushed n bs h)
    ∙ push-coded n b bs h

-- For a window of n at most 63 ticks, whose mask is n ones: after any pushes onto an empty window its
-- count is the number of hits among the last n of them.
pub hits-pushed :
    (n : ℕ) (bs : List Bool) → n ≤ 63 → hits (pushed (2 ^ n - 1) bs) ≡ count_hits (take n bs)
unfolding hits
hits-pushed n bs h = rw (bits-pushed n bs h) (count_ones-coded 64 n bs (omega arith))
