-- ===== src/Floats.antt =====
-- What the firmware does with `float` and `double`: they are the target's IEEE arithmetic, a
-- parameter of the development. `decimal m k` is the `double` of the literal m / 10 ^ k.
pub mod Milli
use byte_waterlevel.Prelude.{
  ℕ, ◌+◌, ◌-◌, ◌*◌, ◌/◌, ◌^◌, ◌≡◌, Bool, true, false, ◌⊎◌, Option, none, some, arith, ltb, leb, not,
  refl, ◌==◌, if◌then◌else◌,
}

pub record Floats : Type 1 where
  pub Float : Type 0
  pub Double : Type 0
  pub of_nat : ℕ → Float
  pub sub : Float → Float → Float
  pub mul : Float → Float → Float
  pub div : Float → Float → Float
  pub lt : Float → Float → Bool
  pub le : Float → Float → Bool
  pub round : Float → Float
  pub decimal : ℕ → ℕ → Double
  pub widen : Float → Double
  pub narrow : Double → Float
  pub add_double : Double → Double → Double
  pub sub_double : Double → Double → Double
  pub mul_double : Double → Double → Double

-- A value that is not NaN: one that is `<=` itself.
abbrev pub IsNumber : (R : Floats) → R.Float → Type 0
IsNumber R x = R.le x x ≡ true

-- The IEEE comparisons: an order on the numbers, and false as soon as a NaN takes part.
pub record IsOrdered (R : Floats) : Type 0 where
  pub numbers_of_le : (x y : R.Float) → R.le x y ≡ true → IsNumber R x × IsNumber R y
  pub le_trans : (x y z : R.Float) → R.le x y ≡ true → R.le y z ≡ true → R.le x z ≡ true
  pub lt-eq-not-le : (x y : R.Float) → IsNumber R x → IsNumber R y → R.lt x y ≡ not (R.le y x)
  pub numbers_of_lt : (x y : R.Float) → R.lt x y ≡ true → IsNumber R x × IsNumber R y
  pub le_of_lt : (x y : R.Float) → R.lt x y ≡ true → R.le x y ≡ true
  pub nought_le_hundred : R.le (R.of_nat 0) (R.of_nat 100) ≡ true

-- IEEE operations round monotonically, wherever they give a number.
pub record IsMonotone (R : Floats) : Type 0 where
  pub sub_mono :
      (x y z : R.Float)
      → R.le x y ≡ true
      → IsNumber R (R.sub x z)
      → IsNumber R (R.sub y z)
      → R.le (R.sub x z) (R.sub y z) ≡ true
  pub div_mono :
      (x y z : R.Float)
      → R.lt (R.of_nat 0) z ≡ true
      → R.le x y ≡ true
      → IsNumber R (R.div x z)
      → IsNumber R (R.div y z)
      → R.le (R.div x z) (R.div y z) ≡ true
  pub mul_mono :
      (x y z : R.Float)
      → R.le (R.of_nat 0) z ≡ true
      → R.le x y ≡ true
      → IsNumber R (R.mul x z)
      → IsNumber R (R.mul y z)
      → R.le (R.mul x z) (R.mul y z) ≡ true

-- Products and quotients that are exact.
pub record IsExact (R : Floats) : Type 0 where
  pub mul_comm : (x y : R.Float) → R.mul x y ≡ R.mul y x
  pub mul-one : (x : R.Float) → IsNumber R x → R.mul x (R.of_nat 1) ≡ x
  pub share_of_hundred : R.div (R.of_nat 100) (R.of_nat 100) ≡ R.of_nat 1
  pub one_is_number : IsNumber R (R.of_nat 1)
  pub hundred_is_positive : R.lt (R.of_nat 0) (R.of_nat 100) ≡ true
