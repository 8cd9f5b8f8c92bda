-- ===== src/Float/Laws.antt =====
-- Documented laws of IEEE 754 comparisons, as the Rust reference and the standard state them: the
-- numbers that are not NaN are in a total preorder, a finite number is not NaN, and neither is the
-- sum or the difference of two finite numbers.
use lictor.Prelude.{◌≡◌, true, false}
use lictor.Float.{Float}

module _ {F : Type 0} ⦃fl : Float F⦄ where
  open fl use {lt, le, eq, is_finite}

  -- `x == x`, which NaN alone fails.
  abbrev pub IsNumber : F → Type 0
  IsNumber x = eq x x ≡ true

module _ (F : Type 0) ⦃fl : Float F⦄ where
  open fl use {lt, le, is_finite, infinity, neg_infinity, of_nat, add, sub}

  pub record FloatLaws : Type 0 where
    pub finite_number : (x : F) → is_finite x ≡ true → IsNumber x
    pub infinity_number : IsNumber infinity
    pub neg_infinity_number : IsNumber neg_infinity
    pub zero_number : IsNumber (of_nat 0)
    pub le_refl : (x : F) → IsNumber x → le x x ≡ true
    pub le_of_lt : (x y : F) → lt x y ≡ true → le x y ≡ true
    pub le_of_not_lt : (x y : F) → IsNumber x → IsNumber y → lt x y ≡ false → le y x ≡ true
    pub lt_number : (x y : F) → lt x y ≡ true → IsNumber x
    pub le_trans : (x y z : F) → le x y ≡ true → le y z ≡ true → le x z ≡ true
    pub lt_of_lt_of_le : (x y z : F) → lt x y ≡ true → le y z ≡ true → lt x z ≡ true
    pub lt_of_le_of_lt : (x y z : F) → le x y ≡ true → lt y z ≡ true → lt x z ≡ true
    pub le_of_not_le : (x y : F) → IsNumber x → IsNumber y → le x y ≡ false → le y x ≡ true
    pub add_number : (x y : F) → is_finite x ≡ true → is_finite y ≡ true → IsNumber (add x y)
    pub sub_number : (x y : F) → is_finite x ≡ true → is_finite y ≡ true → IsNumber (sub x y)
    pub le_infinity : (x : F) → IsNumber x → le x infinity ≡ true
    pub neg_infinity_le : (x : F) → IsNumber x → le neg_infinity x ≡ true
