-- ===== src/Tests/Encodings.antt =====
-- Numbers encoded without floats, at concrete inputs.
use lictor.Prelude.{List, ℕ, ◌<◌, ◌^◌, ◌≡◌, ◌↔◌, refl, [], ◌∷◌, ok, arith}
use lictor.Canon.F64.{
  BitArray, hex_value, hex_digits, f64_to_hex, f64_from_hex, payload_base64, from_wire,
}
use lictor.Canon.F64.Hex.{f64_from_hex_iff}
use lictor.Canon.F64.Arrays.{from_wire-payload_base64}
use lictor.Canon.Jcs.{write_string, escaped}
use lictor.Canon.Jcs.Strings.{write_string_split}
use lictor.Tests.Records.{strokes, read_strokes, read-strokes}

-- The bits of 1.0.
abbrev one_bits : ℕ
one_bits = 0x3ff0000000000000

one_read : f64_from_hex (f64_to_hex one_bits) ≡ ok one_bits
unfolding f64_from_hex f64_to_hex hex_value hex_digits
one_read = refl

f64_from_hex_iff_example :
    (f64_from_hex (f64_to_hex one_bits) ≡ ok one_bits)
    ↔ ((one_bits < 2 ^ 64) × (f64_to_hex one_bits ≡ f64_to_hex one_bits))
f64_from_hex_iff_example = f64_from_hex_iff (f64_to_hex one_bits) one_bits

abbrev pair : BitArray
pair = record { shape = 1 ∷ 2 ∷ []; data_of = 7 ∷ one_bits ∷ [] }

from_wire-payload_base64_example :
    from_wire strokes (read_strokes 0) (payload_base64 strokes (read_strokes 0) pair) (1 ∷ 2 ∷ [])
    ≡ ok pair
from_wire-payload_base64_example =
    from_wire-payload_base64 strokes (read_strokes 0) pair read-strokes
      (omega arith, (omega arith, tt)) refl

abbrev colon : List ℕ
colon = b':' ∷ []

-- A quote and a line feed.
abbrev two_bytes : List ℕ
two_bytes = b'"' ∷ b'\n' ∷ []

two_written : write_string two_bytes ≡ b'"' ∷ b'\\' ∷ b'"' ∷ b'\\' ∷ b'n' ∷ b'"' ∷ []
unfolding write_string escaped
two_written = refl

write_string_split_example : (two_bytes ≡ two_bytes) × (colon ≡ colon)
write_string_split_example =
    write_string_split two_bytes two_bytes colon colon (omega arith, (omega arith, tt))
      (omega arith, (omega arith, tt)) refl
