-- ===== src/Prelude/Results.antt =====
-- A value or an error, with `do`, and the early return of a failed check.
use mathlib.Core.Bool.{Bool, true, false}
use mathlib.Core.Path.{◌≡◌, refl}
use mathlib.Core.Option.{Option, none, some}

pub data Result {ℓ κ} (E : Type ℓ) (A : Type κ) : Type (ℓ ⊔ κ) where
  ok : A → Result E A
  err : E → Result E A

-- `if test { return Err(e) }`.
abbrev pub reject_if {ℓ} : {E : Type ℓ} → Bool → E → Result E (Unit {0})
reject_if true e = err e
reject_if false e = ok tt

-- `o.ok_or(e)?`.
abbrev pub or_err {ℓ κ} : {E : Type ℓ} {A : Type κ} → Option A → E → Result E A
or_err none e = err e
or_err (some a) e = ok a

infixl 5 ◌>>=◌
abbrev pub ◌>>=◌ {ℓ κ μ} :
    {E : Type ℓ} {A : Type κ} {B : Type μ} → Result E A → (A → Result E B) → Result E B
err problem >>= rest = err problem
ok value >>= rest = rest value

-- A check, whose value says nothing, and what follows it.
infixl 5 ◌>>◌
abbrev pub ◌>>◌ {ℓ κ} : {E : Type ℓ} {B : Type κ} → Result E (Unit {0}) → Result E B → Result E B
check >> rest = check >>= λ passed. rest

-- What a successful chain says of its parts.
pub >>=-eq-ok {ℓ κ μ} :
    {E : Type ℓ} {A : Type κ} {B : Type μ} (first : Result E A) (rest : A → Result E B) {out : B}
    → (first >>= rest) ≡ ok out
    → (value : A) × (first ≡ ok value) × (rest value ≡ ok out)
>>=-eq-ok (err problem) rest finished = cc
>>=-eq-ok (ok value) rest finished = (value, refl, finished)

pub reject_if-eq-ok {ℓ} :
    {E : Type ℓ} (test : Bool) (e : E) {u : Unit {0}} → reject_if test e ≡ ok u → test ≡ false
reject_if-eq-ok true e h = cc
reject_if-eq-ok false e h = refl
