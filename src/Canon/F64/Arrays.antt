-- ===== src/Canon/F64/Arrays.antt =====
-- Arrays of f64 travel unchanged: `payload_base64` and `from_wire` of
-- crates/lictor-canon/src/f64enc.rs.
use lictor.Prelude.{
  ℕ, zero, suc, ◌+◌, ◌*◌, ◌/◌, ◌%◌, ◌^◌, ◌<◌, ◌≡◌, refl, ap, ◌∙◌, true, Option, some, List, [], ◌∷◌,
  length, All, arith, ok, ◌==◌,
}
use lictor.Canon.F64.{
  BitArray, shape_product, le_bytes, le_value, payload_bytes, words_of, payload_base64, from_wire,
}

-- 256 ^ w, by steps.
abbrev bytes_room : ℕ → ℕ
bytes_room zero = 1
bytes_room (suc w) = 256 * bytes_room w

le_value-le_bytes : (w n : ℕ) → n < bytes_room w → le_value (le_bytes w n) ≡ n
unfolding le_bytes le_value
le_value-le_bytes zero n h = omega (arith, h)
le_value-le_bytes (suc w) n h =
    ap (λ v. n % 256 + 256 * v) (le_value-le_bytes w (n / 256) (omega (arith, h))) ∙ omega arith

-- Bit patterns of f64.
abbrev pub AreBits : List ℕ → Type 0
AreBits xs = All (λ x. x < 2 ^ 64) xs

words_of-payload : (xs : List ℕ) → AreBits xs → words_of (payload_bytes xs) ≡ xs
unfolding words_of payload_bytes le_bytes le_value
words_of-payload [] h = refl
words_of-payload (x ∷ xs) (fits, h) =
    ap (λ v. v ∷ words_of (payload_bytes xs)) (le_value-le_bytes 8 x fits)
    ∙ ap (λ vs. x ∷ vs) (words_of-payload xs h)

length-payload : (xs : List ℕ) → length (payload_bytes xs) % 8 ≡ 0
unfolding payload_bytes le_bytes
length-payload [] = refl
length-payload (x ∷ xs) = omega (arith, length-payload xs)

-- An array whose shape describes its bit patterns is read from the wire as it was written, when what
-- base64 encodes decodes to the same bytes.
pub from_wire-payload_base64 :
    {T : Type 0} (encode : List ℕ → T) (decode : T → Option (List ℕ)) (a : BitArray)
    → ((bytes : List ℕ) → decode (encode bytes) ≡ some bytes)
    → AreBits a.data_of
    → shape_product a.shape ≡ some (length a.data_of)
    → from_wire encode decode (payload_base64 encode decode a) a.shape ≡ ok a
unfolding from_wire payload_base64
from_wire-payload_base64 encode decode a laws bits shaped =
    let same : (length a.data_of == length a.data_of) ≡ true = ground arith in
    rw
      (
        laws (payload_bytes a.data_of),
        length-payload a.data_of,
        words_of-payload a.data_of bits,
        shaped,
        same,
      )
      refl
