-- ===== src/Canon/Jcs.antt =====
-- The texts of canonical JSON: `write_string` and `key_ok` of crates/lictor-canon/src/jcs.rs. A text is
-- its bytes.
pub mod Strings
use lictor.Prelude.{
  ℕ, ◌/◌, ◌%◌, Bool, ◌&&◌, not, true, false, List, [], ◌∷◌, ◌++◌, all, if◌then◌else◌, ltb, leb,
  ◌==◌,
}
use lictor.Canon.F64.{hex_digit}

-- What a byte is written as.
unfoldable pub escaped : ℕ → List ℕ
escaped b =
    if b == b'"'
    then b'\\' ∷ b'"' ∷ []
    else if b == b'\\'
    then b'\\' ∷ b'\\' ∷ []
    else if b == 0x08
    then b'\\' ∷ b'b' ∷ []
    else if b == 0x0c
    then b'\\' ∷ b'f' ∷ []
    else if b == b'\n'
    then b'\\' ∷ b'n' ∷ []
    else if b == b'\r'
    then b'\\' ∷ b'r' ∷ []
    else if b == b'\t'
    then b'\\' ∷ b't' ∷ []
    else if leb b 0x1f
    then b'\\' ∷ b'u' ∷ b'0' ∷ b'0' ∷ hex_digit (b / 16) ∷ hex_digit (b % 16) ∷ []
    else b ∷ []

abbrev pub escaped_all : List ℕ → List ℕ
escaped_all [] = []
escaped_all (b ∷ bytes) = escaped b ++ escaped_all bytes

unfoldable pub write_string : List ℕ → List ℕ
unfolding escaped
write_string s = b'"' ∷ (escaped_all s ++ (b'"' ∷ []))

-- Printable ASCII, and not empty.
abbrev pub is_empty_bytes : List ℕ → Bool
is_empty_bytes [] = true
is_empty_bytes (b ∷ bytes) = false

unfoldable pub key_ok : List ℕ → Bool
key_ok k = not (is_empty_bytes k) && all (λ b. leb 0x21 b && leb b 0x7e) k
