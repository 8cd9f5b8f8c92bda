-- ===== src/Canon/Jcs/Strings.antt =====
-- Texts of canonical JSON can be told apart: `write_string` of crates/lictor-canon/src/jcs.rs.
use lictor.Prelude.{
  ℕ, ◌*◌, ◌+◌, ◌<◌, ◌≡◌, refl, sym, ap, ◌∙◌, Option, none, some, List, [], ◌∷◌, ◌++◌, All,
  if◌then◌else◌, ◌==◌, arith,
}
use mathlib.Core.List.{append_assoc}
use lictor.Canon.F64.{digit_value}
use lictor.Canon.Jcs.{escaped, escaped_all, write_string}

abbrev coded : List ℕ → Option (ℕ × List ℕ)
coded (y ∷ z ∷ p ∷ q ∷ rest) = some (digit_value p * 16 + digit_value q, rest)
coded _ = none

-- The byte after a backslash, read back.
abbrev after_backslash : List ℕ → Option (ℕ × List ℕ)
after_backslash [] = none
after_backslash (c ∷ rest) =
    if c == b'u'
    then coded rest
    else if c == b'b'
    then some (8, rest)
    else if c == b'f'
    then some (12, rest)
    else if c == b'n'
    then some (10, rest)
    else if c == b'r'
    then some (13, rest)
    else if c == b't'
    then some (9, rest)
    else some (c, rest)

-- The first byte of a text that was written, and what follows it; none at its end.
abbrev first_byte : List ℕ → Option (ℕ × List ℕ)
first_byte [] = none
first_byte (c ∷ rest) =
    let next = after_backslash rest in
    if c == b'"' then none else if c == b'\\' then next else some (c, rest)

first_byte-escaped :
    (b : ℕ) (rest : List ℕ) → b < 256 → first_byte (escaped b ++ rest) ≡ some (b, rest)
unfolding escaped
first_byte-escaped b rest h = ground (arith, h)

-- The bytes of a text.
abbrev pub AreBytes : List ℕ → Type 0
AreBytes s = All (λ b. b < 256) s

-- The body of a text, with its end and what follows.
abbrev closed : List ℕ → List ℕ → List ℕ
closed s rest = escaped_all s ++ (b'"' ∷ rest)

first_byte-closed :
    (b : ℕ) (s rest : List ℕ) → b < 256 → first_byte (closed (b ∷ s) rest) ≡ some (b, closed s rest)
first_byte-closed b s rest h =
    ap first_byte (append_assoc (escaped b) (escaped_all s) (b'"' ∷ rest))
    ∙ first_byte-escaped b (closed s rest) h

split_pair :
    (a b : ℕ) (x y : List ℕ)
    → ◌≡◌ {A = Option (ℕ × List ℕ)} (some (a, x)) (some (b, y))
    → (a ≡ b) × (x ≡ y)
split_pair a b x y h = (ground (arith, h), ground (arith, h))

same_rest : (b : ℕ) (x y : List ℕ) → (b ∷ x) ≡ (b ∷ y) → x ≡ y
same_rest b x y h = cc

closed_split :
    (s t x y : List ℕ) → AreBytes s → AreBytes t → closed s x ≡ closed t y → (s ≡ t) × (x ≡ y)
closed_split [] [] x y hs ht same = (refl, ground (arith, same))
closed_split [] (b ∷ t) x y hs (hb, ht) same =
    let k = ap first_byte same ∙ first_byte-closed b t y hb in absurd (ground (arith, k))
closed_split (a ∷ s) [] x y (ha, hs) ht same =
    let k = sym (first_byte-closed a s x ha) ∙ ap first_byte same in absurd (ground (arith, k))
closed_split (a ∷ s) (b ∷ t) x y (ha, hs) (hb, ht) same =
    let (heads, tails) =
      split_pair a b (closed s x) (closed t y)
        (sym (first_byte-closed a s x ha) ∙ ap first_byte same ∙ first_byte-closed b t y hb) in
    let (texts, rests) = closed_split s t x y hs ht tails in (cc, rests)

-- A written text says where it ends and what it is: when two written texts, each with anything after
-- it, give the same bytes, the texts are the same, and so is what follows.
pub write_string_split :
    (s t x y : List ℕ)
    → AreBytes s
    → AreBytes t
    → write_string s ++ x ≡ write_string t ++ y
    → (s ≡ t) × (x ≡ y)
unfolding write_string
write_string_split s t x y hs ht same =
    let left = append_assoc (escaped_all s) (b'"' ∷ []) x in
    let right = append_assoc (escaped_all t) (b'"' ∷ []) y in
    closed_split s t x y hs ht (sym left ∙ same_rest b'"' _ _ same ∙ right)
