-- ===== src/Canon/F64.antt =====
-- Numbers without floats: crates/lictor-canon/src/f64enc.rs. An f64 is its bits, a number below 2^64,
-- and a text here is its bytes. Base64 is a parameter.
pub mod Hex
pub mod Arrays
use lictor.Prelude.{
  false, ℕ, zero, suc, ◌+◌, ◌-◌, ◌*◌, ◌/◌, ◌%◌, ◌^◌, Bool, ◌&&◌, ◌||◌, Option, none, some, List, [],
  ◌∷◌, ◌++◌, length, all, if◌then◌else◌, ltb, leb, ◌==◌, option, Result, ok, err, or_err, reject_if,
  ◌>>=◌, ◌>>◌, not,
}

-- The lower-case digit of a number below 16.
abbrev pub hex_digit : ℕ → ℕ
hex_digit n = if ltb n 10 then 48 + n else 87 + n

abbrev pub is_hex_byte : ℕ → Bool
is_hex_byte b = (leb b'0' b && leb b b'9') || (leb b'a' b && leb b b'f')

abbrev pub digit_value : ℕ → ℕ
digit_value b = if leb b b'9' then b - 48 else b - 87

-- w digits, padded with zeros.
unfoldable pub hex_digits : ℕ → ℕ → List ℕ
hex_digits zero n = []
hex_digits (suc w) n = hex_digits w (n / 16) ++ (hex_digit (n % 16) ∷ [])

-- Digits read after the value of those before.
unfoldable pub hex_value : ℕ → List ℕ → ℕ
hex_value acc [] = acc
hex_value acc (b ∷ bytes) = hex_value (acc * 16 + digit_value b) bytes

unfoldable pub f64_to_hex : ℕ → List ℕ
unfolding hex_digits
f64_to_hex bits = hex_digits 16 bits

pub data BadF64 : Type 0 where
  not_sixteen_digits not_base64 not_words shape_differs : BadF64

unfoldable pub f64_from_hex : List ℕ → Result BadF64 ℕ
unfolding hex_value
f64_from_hex s =
    if (length s == 16) && all is_hex_byte s
    then ok (hex_value 0 s)
    else err BadF64.not_sixteen_digits

-- An array of f64, by their bits.
pub record BitArray : Type 0 where
  pub shape : List ℕ
  pub data_of : List ℕ

-- `checked_mul` on usize.
abbrev pub checked_product : ℕ → List ℕ → Option ℕ
checked_product acc [] = some acc
checked_product acc (d ∷ dims) =
    let rest = checked_product (acc * d) dims in if ltb (acc * d) (2 ^ 64) then rest else none

abbrev pub shape_product : List ℕ → Option ℕ
shape_product shape = checked_product 1 shape

-- `to_le_bytes`, w bytes.
unfoldable pub le_bytes : ℕ → ℕ → List ℕ
le_bytes zero n = []
le_bytes (suc w) n = n % 256 ∷ le_bytes w (n / 256)

-- `from_le_bytes`.
unfoldable pub le_value : List ℕ → ℕ
le_value [] = 0
le_value (b ∷ bytes) = b + 256 * le_value bytes

unfoldable pub payload_bytes : List ℕ → List ℕ
unfolding le_bytes
payload_bytes [] = []
payload_bytes (x ∷ xs) = le_bytes 8 x ++ payload_bytes xs

-- The words of eight bytes; what is left over is dropped.
unfoldable pub words_of : List ℕ → List ℕ
unfolding le_value
words_of (a ∷ b ∷ c ∷ d ∷ e ∷ f ∷ g ∷ h ∷ bytes) =
    le_value (a ∷ b ∷ c ∷ d ∷ e ∷ f ∷ g ∷ h ∷ []) ∷ words_of bytes
words_of _ = []

-- The shape describes so many values.
abbrev pub describes : List ℕ → ℕ → Bool
describes shape n = option (shape_product shape) false (λ k. k == n)

module _ {T : Type 0} (encode : List ℕ → T) (decode : T → Option (List ℕ)) where
  unfoldable pub payload_base64 : BitArray → T
  unfolding payload_bytes
  payload_base64 a = encode (payload_bytes a.data_of)

  unfoldable pub from_wire : T → List ℕ → Result BadF64 BitArray
  unfolding words_of
  from_wire f64a shape = do
    bytes ← or_err (decode f64a) BadF64.not_base64
    reject_if (not (length bytes % 8 == 0)) BadF64.not_words
    reject_if (not (describes shape (length (words_of bytes)))) BadF64.shape_differs
    ok (record { shape = shape; data_of = words_of bytes })
