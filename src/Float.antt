-- ===== src/Float.antt =====
-- IEEE 754 binary64 as an interface: the operations of Rust's f64 that the decision path uses.
-- The arithmetic of f64 is the compiler's and the processor's, so the development takes it as an
-- instance argument; `Float/Laws.antt` names the documented laws that a theorem may rely on.
pub mod Laws
pub mod Sample
use lictor.Prelude.{ℕ, Bool}

pub record Float (F : Type 0) : Type 0 where
  pub of_nat : ℕ → F  -- an integer literal, or `n as f64`
  pub decimal : ℕ → ℕ → F  -- the literal m * 10^-k
  pub add : F → F → F
  pub sub : F → F → F
  pub mul : F → F → F
  pub div : F → F → F
  pub neg : F → F
  pub sqrt : F → F
  pub abs : F → F  -- the sign bit cleared
  pub lt : F → F → Bool  -- `a < b`
  pub le : F → F → Bool  -- `a <= b`
  pub eq : F → F → Bool  -- `a == b`
  pub is_finite : F → Bool
  pub infinity : F
  pub neg_infinity : F
  pub nan : F
