-- ===== src/Prelude/Maps.antt =====
-- Maps from texts, as association lists: a `BTreeMap<String, V>` whose order is not modelled.
use Prim.Native.String.{String}
use mathlib.Core.Path.{◌≡◌, refl}
use mathlib.Core.Bool.{false}
use mathlib.Core.Logic.{inl, inr}
use mathlib.Core.Option.{Option, none, some}
use mathlib.Core.List.{List, [], ◌∷◌}
use native.Mathlib.Omega.{arith}
use lictor.Prelude.Tests.{if◌then◌else◌, Bool-cases}
use lictor.Prelude.Texts.{same_text, same_text_iff}

-- The value under a key.
abbrev pub lookup {ℓ} : {V : Type ℓ} → List (String × V) → String → Option V
lookup [] key = none
lookup ((k, v) ∷ rest) key = if same_text k key then some v else lookup rest key

-- The value is replaced, or added at the end.
abbrev pub insert {ℓ} : {V : Type ℓ} → List (String × V) → String → V → List (String × V)
insert [] key new = (key, new) ∷ []
insert ((k, v) ∷ rest) key new =
    let others = insert rest key new in if same_text k key then (k, new) ∷ rest else (k, v) ∷ others

-- The entries of a second map, written over those of the first.
abbrev pub extend {ℓ} : {V : Type ℓ} → List (String × V) → List (String × V) → List (String × V)
extend m [] = m
extend m ((k, v) ∷ rest) = extend (insert m k v) rest

pub lookup-insert_self {ℓ} :
    {V : Type ℓ} (m : List (String × V)) (key : String) (new : V)
    → lookup (insert m key new) key ≡ some new
lookup-insert_self [] key new = rw ((same_text_iff key key).1 refl) refl
lookup-insert_self ((k, v) ∷ rest) key new = elim (Bool-cases (same_text k key)) [
  | inl h ↦ rw (h, h) refl
  | inr h ↦ rw (h, h) (lookup-insert_self rest key new)
]

pub lookup-insert_other {ℓ} :
    {V : Type ℓ} (m : List (String × V)) (key other : String) (new : V)
    → same_text key other ≡ false
    → lookup (insert m key new) other ≡ lookup m other
lookup-insert_other [] key other new h = ground (arith, h)
lookup-insert_other ((k, v) ∷ rest) key other new h = ground (
  arith,
  h,
  lookup-insert_other rest key other new h,
  (same_text_iff k key).0,
  (same_text_iff k other).0,
)
