-- ===== src/Common/Float.antt =====
-- Python floats as an interface. `is_finite` is false of the infinities and of NaN, and the laws
-- are those of IEEE doubles under rounding to nearest, each with the finiteness that it needs: a
-- product, a sum or a quotient may overflow, comparisons with NaN are false, and integers are exact
-- up to 2 ^ 53. The two zeros count as one number, as for `==`: the code never divides by a zero.
-- No law needs exact arithmetic: neither associativity nor distributivity is one.
pub mod FixedPoint
use Prim.Native.Nat.{ℕ, suc, ◌+◌, ◌*◌, ◌≤◌, ◌<◌}
use mathlib.Core.Path.{◌≡◌}
use mathlib.Core.Bool.{Bool, true, false, not}
use mathlib.Core.Logic.{◌⊎◌, inl, inr}
use microtensor_compute.Common.Tests.{if◌then◌else◌}

-- Up to here an integer is a float exactly.
abbrev pub exact_ints : ℕ
exact_ints = 9007199254740992

pub record Float : Type 1 where
  pub F : Type 0
  -- `p / q` as the float that the literal denotes, `literal 80 100` for 0.80.
  pub literal : ℕ → ℕ → F
  pub of_int : ℕ → F
  pub add : F → F → F
  pub sub : F → F → F
  pub mul : F → F → F
  pub div : F → F → F
  pub le : F → F → Bool
  pub is_finite : F → Bool
  -- The built-in `round` of a finite number that is not negative.
  pub round : F → ℕ
  pub le_refl : (a : F) → is_finite a ≡ true → le a a ≡ true
  pub le_total :
      (a b : F) → is_finite a ≡ true → is_finite b ≡ true → (le a b ≡ true) ⊎ (le b a ≡ true)
  pub le_trans : (a b c : F) → le a b ≡ true → le b c ≡ true → le a c ≡ true
  pub finite_between :
      (a b c : F)
      → is_finite a ≡ true
      → is_finite c ≡ true
      → le a b ≡ true
      → le b c ≡ true
      → is_finite b ≡ true
  pub zero-le-literal : (p q : ℕ) → 0 < q → le (of_int 0) (literal p q) ≡ true
  pub literal-le-one : (p q : ℕ) → p ≤ q → 0 < q → le (literal p q) (of_int 1) ≡ true
  pub of_int-finite : (n : ℕ) → n ≤ exact_ints → is_finite (of_int n) ≡ true
  pub of_int_mono : (m n : ℕ) → m ≤ n → n ≤ exact_ints → le (of_int m) (of_int n) ≡ true
  pub of_int_reflects :
      (m n : ℕ) → m ≤ exact_ints → n ≤ exact_ints → le (of_int m) (of_int n) ≡ true → m ≤ n
  pub mul-zero_left : (a : F) → is_finite a ≡ true → mul (of_int 0) a ≡ of_int 0
  pub mul-one_left : (a : F) → mul (of_int 1) a ≡ a
  pub mul-one_right : (a : F) → mul a (of_int 1) ≡ a
  -- A product of numbers that are not negative is no more than a product of larger ones, where that
  -- does not overflow.
  pub mul_finite :
      (a b c d : F)
      → le (of_int 0) a ≡ true
      → le a b ≡ true
      → le (of_int 0) c ≡ true
      → le c d ≡ true
      → is_finite (mul b d) ≡ true
      → is_finite (mul a c) ≡ true
  pub mul_mono :
      (a b c d : F)
      → le (of_int 0) a ≡ true
      → le a b ≡ true
      → le (of_int 0) c ≡ true
      → le c d ≡ true
      → is_finite (mul b d) ≡ true
      → le (mul a c) (mul b d) ≡ true
  pub add-zero_left : (a : F) → add (of_int 0) a ≡ a
  -- Neither part is more than a sum of numbers that are not negative.
  pub le-add :
      (a b : F)
      → le (of_int 0) a ≡ true
      → le (of_int 0) b ≡ true
      → (le a (add a b) ≡ true) × (le b (add a b) ≡ true)
  pub add_shares :
      (a b : F)
      → le (of_int 0) a ≡ true
      → le a (of_int 1) ≡ true
      → le (of_int 0) b ≡ true
      → le b (of_int 1) ≡ true
      → is_finite (add a b) ≡ true
  pub sub_nonneg :
      (a b : F)
      → is_finite a ≡ true
      → le (of_int 0) b ≡ true
      → le b a ≡ true
      → (le (of_int 0) (sub a b) ≡ true) × (le (sub a b) a ≡ true)
  pub div_mono :
      (a b c : F)
      → is_finite c ≡ true
      → le c (of_int 0) ≡ false
      → le a b ≡ true
      → le (div a c) (div b c) ≡ true
  pub div-finite :
      (a c : F)
      → is_finite a ≡ true
      → is_finite c ≡ true
      → le (of_int 1) c ≡ true
      → is_finite (div a c) ≡ true
  pub div_self : (a : F) → is_finite a ≡ true → le a (of_int 0) ≡ false → div a a ≡ of_int 1
  pub zero-div :
      (a : F) → is_finite a ≡ true → le a (of_int 0) ≡ false → div (of_int 0) a ≡ of_int 0
  pub round-of_int : (n : ℕ) → n ≤ exact_ints → round (of_int n) ≡ n
  pub round_mono :
      (a b : F)
      → is_finite a ≡ true
      → is_finite b ≡ true
      → le (of_int 0) a ≡ true
      → le a b ≡ true
      → round a ≤ round b

module _ (float : Float) where
  open float use {F, le}

  -- `a > b` of numbers that are not NaN.
  abbrev pub gt : F → F → Bool
  gt a b = not (le a b)

  abbrev pub max_f : F → F → F
  max_f a b = if le b a then a else b

  abbrev pub min_f : F → F → F
  min_f a b = if le a b then a else b
