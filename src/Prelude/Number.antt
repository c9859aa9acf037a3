-- ===== src/Prelude/Number.antt =====
-- What the code uses of `float` and of `decimal.Decimal`: the operators, as a parameter of the
-- model. The laws are records of their own, so that each theorem names what it relies on.
use football_agent.Prelude.Tests.{if◌then◌else◌}
use football_agent.Prelude.Int.{
  ℤ, pos, pos_part, ◌+ℤ◌, ◌-ℤ◌, ◌*ℤ◌, ltb_ℤ, leb_ℤ, +ℤ_assoc, +ℤ_zero, zero_+ℤ,
}
use Prim.Native.Nat.{ℕ, ◌/◌}
use mathlib.Core.Path.{◌≡◌, refl}
use mathlib.Core.Bool.{Bool, true, false, not, ◌&&◌}
use native.Mathlib.Omega.{arith}

pub record Number (R : Type 0) : Type 0 where
  -- an integer literal or an `int` operand
  pub of_nat : ℕ → R
  pub add : R → R → R
  pub sub : R → R → R
  pub mul : R → R → R
  pub div : R → R → R
  pub lt : R → R → Bool
  pub le : R → R → Bool
  pub eq : R → R → Bool

abbrev pub nought : {R : Type 0} ⦃n : Number R⦄ → R
nought ⦃n⦄ = n.of_nat 0

-- `-x`
abbrev pub neg : {R : Type 0} ⦃n : Number R⦄ → R → R
neg ⦃n⦄ x = n.sub (n.of_nat 0) x

-- `max(a, b)` keeps `a` unless `b` is greater.
abbrev pub max_of : {R : Type 0} ⦃n : Number R⦄ → R → R → R
max_of ⦃n⦄ a b = if n.lt a b then b else a

-- Addition as Decimal has it while the sums fit the precision of the context.
pub record IsExact {R : Type 0} (n : Number R) : Type 0 where
  pub add_assoc : (a b c : R) → n.add (n.add a b) c ≡ n.add a (n.add b c)
  pub add_zero : (a : R) → n.add a (n.of_nat 0) ≡ a
  pub zero_add : (a : R) → n.add (n.of_nat 0) a ≡ a

-- The order of numbers that are not NaN.
pub record IsOrdered {R : Type 0} (n : Number R) : Type 0 where
  pub le_refl : (a : R) → n.le a a ≡ true
  pub le_trans : (a b c : R) → n.le a b ≡ true → n.le b c ≡ true → n.le a c ≡ true
  pub lt-eq-not-le : (a b : R) → n.lt a b ≡ not (n.le b a)
  pub le_total : (a b : R) → n.le a b ≡ false → n.le b a ≡ true
  pub eq-eq-le : (a b : R) → n.eq a b ≡ (n.le a b && n.le b a)

-- The integers are such numbers: the instance that the examples use. Division is of the
-- non-negative ones.
instance abbrev pub int_number : Number ℤ
int_number = record {
  of_nat = pos;
  add = ◌+ℤ◌;
  sub = ◌-ℤ◌;
  mul = ◌*ℤ◌;
  div = λ a b. pos (pos_part a / pos_part b);
  lt = ltb_ℤ;
  le = leb_ℤ;
  eq = λ a b. leb_ℤ a b && leb_ℤ b a;
}

pub int-IsExact : IsExact int_number
int-IsExact = record { add_assoc = +ℤ_assoc; add_zero = +ℤ_zero; zero_add = zero_+ℤ }

leb_trans : (a b c : ℤ) → leb_ℤ a b ≡ true → leb_ℤ b c ≡ true → leb_ℤ a c ≡ true
leb_trans a b c h k = ground arith

pub int-IsOrdered : IsOrdered int_number
int-IsOrdered = record {
  le_refl = λ a. ground arith;
  le_trans = leb_trans;
  lt-eq-not-le = λ a b. ground arith;
  le_total = λ a b h. ground arith;
  eq-eq-le = λ a b. refl;
}
