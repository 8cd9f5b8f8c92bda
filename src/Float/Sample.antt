-- ===== src/Float/Sample.antt =====
-- A small model of the interface, to run the definitions and to show that the laws can hold: the
-- integers, two infinities and NaN. Its divisions and roots are rounded to integers.
use lictor.Prelude.{
  ℕ, zero, suc, ◌+◌, ◌-◌, ◌*◌, ◌/◌, ◌^◌, ◌≡◌, refl, Bool, true, false, ◌&&◌, not, if◌then◌else◌,
  ltb, leb, ◌==◌, arith,
}
use lictor.Float.{Float}
use lictor.Float.Laws.{FloatLaws}

-- The number up - down, with one of them 0.
pub data Sample : Type 0 where
  number : ℕ → ℕ → Sample
  top bottom undefined : Sample

abbrev whole : ℕ → ℕ → Sample
whole up down = number (up - down) (down - up)

-- Positions on a line, for the order: the infinities are outermost.
abbrev less : Sample → Sample → Bool
less undefined y = false
less bottom bottom = false
less bottom undefined = false
less bottom y = true
less top y = false
less (number a b) undefined = false
less (number a b) bottom = false
less (number a b) top = true
less (number a b) (number c d) = ltb (a + d) (c + b)

abbrev is_number : Sample → Bool
is_number undefined = false
is_number x = true

abbrev at_most : Sample → Sample → Bool
at_most x y = is_number x && is_number y && not (less y x)

abbrev same : Sample → Sample → Bool
same x y = at_most x y && at_most y x

abbrev lift : (ℕ → ℕ → ℕ → ℕ → Sample) → Sample → Sample → Sample
lift f (number a b) (number c d) = f a b c d
lift f x y = undefined

abbrev negate : Sample → Sample
negate (number a b) = number b a
negate top = bottom
negate bottom = top
negate undefined = undefined

abbrev absolute : Sample → Sample
absolute (number a b) = number (a + b) 0
absolute bottom = top
absolute x = x

abbrev divide : ℕ → ℕ → ℕ → ℕ → Sample
divide a b c d =
    if c + d == 0
    then undefined
    else if leb c d
    then whole (b / (c + d)) (a / (c + d))
    else whole (a / (c + d)) (b / (c + d))

-- The largest k, at most the first argument, whose square is at most n.
abbrev root : ℕ → ℕ → ℕ
root zero n = 0
root (suc k) n = let rest = root k n in if leb (suc k * suc k) n then suc k else rest

abbrev root_of : Sample → Sample
root_of (number a zero) = number (root a a) 0
root_of x = undefined

abbrev finite : Sample → Bool
finite (number a b) = true
finite x = false

instance abbrev pub sample_float : Float Sample
sample_float = record {
  of_nat = λ n. number n 0;
  decimal = λ m k. number (m / 10 ^ k) 0;
  add = lift (λ a b c d. whole (a + c) (b + d));
  sub = lift (λ a b c d. whole (a + d) (b + c));
  mul = lift (λ a b c d. whole (a * c + b * d) (a * d + b * c));
  div = lift divide;
  neg = negate;
  sqrt = root_of;
  abs = absolute;
  lt = less;
  le = at_most;
  eq = same;
  is_finite = finite;
  infinity = top;
  neg_infinity = bottom;
  nan = undefined;
}

le_trans_lem : (x y z : Sample) → at_most x y ≡ true → at_most y z ≡ true → at_most x z ≡ true
le_trans_lem x y z h k = ground arith

pub sample_laws : FloatLaws Sample
sample_laws = record {
  finite_number = λ x h. ground arith;
  infinity_number = refl;
  neg_infinity_number = refl;
  zero_number = refl;
  le_refl = λ x h. ground arith;
  le_of_lt = λ x y h. ground arith;
  le_of_not_lt = λ x y h k l. ground arith;
  lt_number = λ x y h. ground arith;
  le_trans = le_trans_lem;
  lt_of_lt_of_le = λ x y z h k. ground arith;
  lt_of_le_of_lt = λ x y z h k. ground arith;
  le_of_not_le = λ x y h k l. ground arith;
  add_number = λ x y h k. ground arith;
  sub_number = λ x y h k. ground arith;
  le_infinity = λ x h. ground arith;
  neg_infinity_le = λ x h. ground arith;
}
