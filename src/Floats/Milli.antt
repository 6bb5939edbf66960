-- ===== src/Floats/Milli.antt =====
-- A number type that meets the laws of `Floats`: whole thousandths from 0 on, with `none` for NaN.
-- Differences stop at 0, products and quotients are rounded down, and a quotient by 0 is NaN.
use native.Mathlib.Nat.{mul_comm}
use byte_waterlevel.Prelude.{
  ℕ, zero, suc, ◌+◌, ◌-◌, ◌*◌, ◌/◌, ◌^◌, ◌≤◌, ◌≡◌, refl, Bool, true, false, Option, none, some,
  arith, ltb, leb, ap, ◌∙◌,
}
use byte_waterlevel.Floats.{Floats, IsNumber, IsOrdered, IsMonotone, IsExact}

abbrev pub Milli : Type 0
Milli = Option ℕ

abbrev lift : (ℕ → ℕ → Milli) → Milli → Milli → Milli
lift f (some a) (some b) = f a b
lift f _ _ = none

abbrev pub test : (ℕ → ℕ → Bool) → Milli → Milli → Bool
test f (some a) (some b) = f a b
test f _ _ = false

abbrev quotient : ℕ → ℕ → Milli
quotient a zero = none
quotient a (suc b) = some (a * 1000 / suc b)

abbrev whole : Milli → Milli
whole (some a) = some ((a + 500) / 1000 * 1000)
whole none = none

abbrev pub milli : Floats
milli = record {
  Float = Milli;
  Double = Milli;
  of_nat = λ n. some (n * 1000);
  sub = lift (λ a b. some (a - b));
  mul = lift (λ a b. some (a * b / 1000));
  div = lift quotient;
  lt = test ltb;
  le = test leb;
  round = whole;
  decimal = λ m k. some (m * 1000 / 10 ^ k);
  widen = λ x. x;
  narrow = λ x. x;
  add_double = lift (λ a b. some (a + b));
  sub_double = lift (λ a b. some (a - b));
  mul_double = lift (λ a b. some (a * b / 1000));
}

pub milli-IsOrdered : IsOrdered milli
milli-IsOrdered = ground arith

div_by_mono : (a b k : ℕ) → a ≤ b → a / suc k ≤ b / suc k
div_by_mono a b k h = grind arith

mul_by_mono : (a b c : ℕ) → a ≤ b → a * c ≤ b * c
mul_by_mono a b c h = grind arith

sub_mono_milli :
    (x y z : Milli) → milli.le x y ≡ true → milli.le (milli.sub x z) (milli.sub y z) ≡ milli.le z z
sub_mono_milli none y z h = cc
sub_mono_milli (some a) none z h = cc
sub_mono_milli (some a) (some b) none h = refl
sub_mono_milli (some a) (some b) (some c) h = ground arith

div_mono_milli :
    (x y z : Milli)
    → milli.lt (milli.of_nat 0) z ≡ true
    → milli.le x y ≡ true
    → milli.le (milli.div x z) (milli.div y z) ≡ true
div_mono_milli none y z p h = cc
div_mono_milli (some a) none z p h = cc
div_mono_milli (some a) (some b) none p h = cc
div_mono_milli (some a) (some b) (some zero) p h = ground arith
div_mono_milli (some a) (some b) (some (suc c)) p h =
    ground (arith, div_by_mono (a * 1000) (b * 1000) c)

mul_mono_milli :
    (x y z : Milli)
    → milli.le (milli.of_nat 0) z ≡ true
    → milli.le x y ≡ true
    → milli.le (milli.mul x z) (milli.mul y z) ≡ true
mul_mono_milli none y z p h = cc
mul_mono_milli (some a) none z p h = cc
mul_mono_milli (some a) (some b) none p h = cc
mul_mono_milli (some a) (some b) (some c) p h = ground (arith, mul_by_mono a b c)

IsNumber-of_sub : (x z : Milli) → IsNumber milli (milli.sub x z) → IsNumber milli z
IsNumber-of_sub none z h = cc
IsNumber-of_sub (some a) none h = cc
IsNumber-of_sub (some a) (some c) h = ground arith

pub milli-IsMonotone : IsMonotone milli
milli-IsMonotone = record {
  sub_mono = λ x y z h _ n. sub_mono_milli x y z h ∙ IsNumber-of_sub y z n;
  div_mono = λ x y z p h _ _. div_mono_milli x y z p h;
  mul_mono = λ x y z p h _ _. mul_mono_milli x y z p h;
}

mul_comm_milli : (x y : Milli) → milli.mul x y ≡ milli.mul y x
mul_comm_milli none none = refl
mul_comm_milli none (some b) = refl
mul_comm_milli (some a) none = refl
mul_comm_milli (some a) (some b) = rw (mul_comm a b)

mul-one_milli : (x : Milli) → milli.mul x (milli.of_nat 1) ≡ x
mul-one_milli none = refl
mul-one_milli (some a) = ap some (omega arith)

milli-IsExact : IsExact milli
milli-IsExact = record {
  mul_comm = mul_comm_milli;
  mul-one = λ x _. mul-one_milli x;
  share_of_hundred = refl;
  one_is_number = refl;
  hundred_is_positive = refl;
}
