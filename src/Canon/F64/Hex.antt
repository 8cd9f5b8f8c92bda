-- ===== src/Canon/F64/Hex.antt =====
-- Sixteen digits and a number's bits: `f64_to_hex` and `f64_from_hex` of
-- crates/lictor-canon/src/f64enc.rs.
use lictor.Prelude.{
  ℕ, zero, suc, ◌+◌, ◌*◌, ◌/◌, ◌%◌, ◌^◌, ◌<◌, ◌≡◌, ◌↔◌, refl, sym, ap, ◌∙◌, Bool, true, ◌&&◌, List,
  [], ◌∷◌, ◌++◌, length, all, arith, ok, length-append,
}
use mathlib.Core.Path.{subst}
use mathlib.Core.List.{append_assoc, append-nil}
use lictor.Canon.F64.{
  hex_digit, is_hex_byte, digit_value, hex_digits, hex_value, f64_to_hex, f64_from_hex,
}

-- 16 ^ w, by steps.
abbrev sixteens : ℕ → ℕ
sixteens zero = 1
sixteens (suc w) = 16 * sixteens w

value-digit : (n : ℕ) → n < 16 → digit_value (hex_digit n) ≡ n
value-digit n h = ground (arith, h)

digit-value :
    (b : ℕ) → is_hex_byte b ≡ true → (hex_digit (digit_value b) ≡ b) × (digit_value b < 16)
digit-value b h = (ground (arith, h), ground (arith, h))

digit_hex : (n : ℕ) → n < 16 → is_hex_byte (hex_digit n) ≡ true
digit_hex n h = ground (arith, h)

hex_value-append :
    (acc : ℕ) (xs ys : List ℕ) → hex_value acc (xs ++ ys) ≡ hex_value (hex_value acc xs) ys
unfolding hex_value
hex_value-append acc [] ys = refl
hex_value-append acc (x ∷ xs) ys = hex_value-append (acc * 16 + digit_value x) xs ys

all-append : (p : ℕ → Bool) (xs ys : List ℕ) → all p (xs ++ ys) ≡ (all p xs && all p ys)
all-append p [] ys = refl
all-append p (x ∷ xs) ys = rw (all-append p xs ys) (ground arith)

-- The digits of a number that has room in them read back.
hex_value-digits : (w n : ℕ) → n < sixteens w → hex_value 0 (hex_digits w n) ≡ n
unfolding hex_value hex_digits
hex_value-digits zero n h = omega (arith, h)
hex_value-digits (suc w) n h =
    hex_value-append 0 (hex_digits w (n / 16)) (hex_digit (n % 16) ∷ [])
    ∙ ap (λ v. v * 16 + digit_value (hex_digit (n % 16)))
        (hex_value-digits w (n / 16) (omega (arith, h)))
    ∙ ap (λ d. n / 16 * 16 + d) (value-digit (n % 16) (omega arith))
    ∙ omega arith

length-hex_digits : (w n : ℕ) → length (hex_digits w n) ≡ w
unfolding hex_digits
length-hex_digits zero n = refl
length-hex_digits (suc w) n =
    length-append (hex_digits w (n / 16)) (hex_digit (n % 16) ∷ [])
    ∙ omega (arith, length-hex_digits w (n / 16))

all-hex_digits : (w n : ℕ) → all is_hex_byte (hex_digits w n) ≡ true
unfolding hex_digits
all-hex_digits zero n = refl
all-hex_digits (suc w) n =
    all-append is_hex_byte (hex_digits w (n / 16)) (hex_digit (n % 16) ∷ [])
    ∙ rw (all-hex_digits w (n / 16), digit_hex (n % 16) (omega arith)) refl

-- Digits that are read print as they were, after those before them.
digits-hex_value :
    (k acc : ℕ) (s : List ℕ)
    → all is_hex_byte s ≡ true
    → hex_digits (k + length s) (hex_value acc s) ≡ hex_digits k acc ++ s
unfolding hex_value hex_digits
digits-hex_value k acc [] h =
    let same : k + 0 ≡ k = omega arith in
    ap (λ j. hex_digits j acc) same ∙ sym (append-nil (hex_digits k acc))
digits-hex_value k acc (b ∷ s) h =
    let (same, small) = digit-value b (ground (arith, h)) in
    let next = acc * 16 + digit_value b in
    let moved : k + suc (length s) ≡ suc k + length s = omega arith in
    ap (λ j. hex_digits j (hex_value next s)) moved
    ∙ digits-hex_value (suc k) next s (ground (arith, h))
    ∙ append_assoc (hex_digits k (next / 16)) (hex_digit (next % 16) ∷ []) s
    ∙ ap (λ q. hex_digits k q ++ (hex_digit (next % 16) ∷ s)) (omega (arith, small))
    ∙ ap (λ r. hex_digits k acc ++ (hex_digit r ∷ s)) (omega (arith, small))
    ∙ ap (λ d. hex_digits k acc ++ (d ∷ s)) same

value_bound :
    (acc k : ℕ) (s : List ℕ)
    → all is_hex_byte s ≡ true
    → acc < sixteens k
    → hex_value acc s < sixteens (k + length s)
unfolding hex_value
value_bound acc k [] h lt = subst (λ j. acc < sixteens j) (omega arith) lt
value_bound acc k (b ∷ s) h lt =
    let (same, small) = digit-value b (ground (arith, h)) in
    let next = acc * 16 + digit_value b in
    subst (λ j. hex_value next s < sixteens j) (omega arith)
      (value_bound next (suc k) s (ground (arith, h)) (omega (arith, small, lt)))

read_back : (bits : ℕ) → bits < 2 ^ 64 → f64_from_hex (f64_to_hex bits) ≡ ok bits
unfolding f64_from_hex f64_to_hex
read_back bits fits =
    rw (length-hex_digits 16 bits, all-hex_digits 16 bits, hex_value-digits 16 bits fits) refl

-- A text is read as some bits exactly when it is what the bits, below 2^64, are printed as: sixteen
-- lower-case digits.
pub f64_from_hex_iff :
    (s : List ℕ) (bits : ℕ) → (f64_from_hex s ≡ ok bits) ↔ ((bits < 2 ^ 64) × (s ≡ f64_to_hex bits))
unfolding f64_from_hex f64_to_hex
f64_from_hex_iff s bits = (
  λ h.
      let sized : length s ≡ 16 = ground (arith, h) in
      let room : 0 + length s ≡ 16 = omega (arith, sized) in
      let hex : all is_hex_byte s ≡ true = ground (arith, h) in
      let value : hex_value 0 s ≡ bits = ground (arith, h) in
      (
        subst (λ v. v < 2 ^ 64) value
            (subst (λ j. hex_value 0 s < sixteens j) room (value_bound 0 0 s hex (omega arith))),
        sym (digits-hex_value 0 0 s hex)
            ∙ ap (λ j. hex_digits j (hex_value 0 s)) room
            ∙ ap (λ v. hex_digits 16 v) value,
      ),
  λ (fits, same). subst (λ t. f64_from_hex t ≡ ok bits) (sym same) (read_back bits fits),
)
