-- ===== src/Prelude/Texts.antt =====
-- Native texts: equality, and a character or a part at a time.
use Prim.Native.Nat.{ℕ, suc}
use Prim.Native.Char.{Char, code}
use Prim.Native.String.{String}
use text.Mathlib.Text
use text.Mathlib.TextEquality.{eq_iff}
use mathlib.Core.Path.{◌≡◌, refl}
use mathlib.Core.Logic.{◌↔◌}
use mathlib.Core.Bool.{Bool, true, false, ◌&&◌, ◌||◌}
use mathlib.Core.List.{List, [], ◌∷◌}
use lictor.Prelude.Tests.{◌==◌, if◌then◌else◌}

abbrev pub same_text : String → String → Bool
same_text s t = Text.◌==◌ s t

pub same_text_iff : (s t : String) → (same_text s t ≡ true) ↔ (s ≡ t)
same_text_iff s t = eq_iff s t

abbrev pub is_empty_text : String → Bool
is_empty_text s = same_text s ""

-- The number of characters.
abbrev pub text_length : String → ℕ
text_length String.[] = 0
text_length (String.◌∷◌ c s) = suc (text_length s)

abbrev pub all_chars : (ℕ → Bool) → String → Bool
all_chars p String.[] = true
all_chars p (String.◌∷◌ c s) = p (code c) && all_chars p s

-- The concatenation of two texts.
abbrev pub append_text : String → String → String
append_text String.[] t = t
append_text (String.◌∷◌ c s) t = String.◌∷◌ c (append_text s t)

-- Is the text in the list?
abbrev pub lists_text : List String → String → Bool
lists_text [] s = false
lists_text (t ∷ ts) s = same_text t s || lists_text ts s

abbrev first_with : Char → List String → List String
first_with c [] = String.◌∷◌ c String.[] ∷ []
first_with c (part ∷ parts) = String.◌∷◌ c part ∷ parts

-- `s.split(c)`, for the character of a code.
abbrev pub split_on : ℕ → String → List String
split_on sep String.[] = String.[] ∷ []
split_on sep (String.◌∷◌ c s) =
    let rest = split_on sep s in if code c == sep then String.[] ∷ rest else first_with c rest

abbrev pub same_texts : List String → List String → Bool
same_texts [] [] = true
same_texts (s ∷ ss) (t ∷ ts) = same_text s t && same_texts ss ts
same_texts _ _ = false

pub same_text_refl : (s : String) → same_text s s ≡ true
same_text_refl s = (same_text_iff s s).1 refl

pub same_texts_refl : (ss : List String) → same_texts ss ss ≡ true
same_texts_refl [] = refl
same_texts_refl (s ∷ ss) = rw (same_text_refl s, same_texts_refl ss) refl
