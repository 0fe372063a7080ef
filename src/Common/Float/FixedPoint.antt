-- ===== src/Common/Float/FixedPoint.antt =====
-- Fixed point numbers with two decimals satisfy the laws of the float interface, so these can be
-- met; all of them are finite.
use Prim.Native.Nat.{ℕ, ◌+◌, ◌-◌, ◌*◌, ◌/◌, ◌≤◌, ◌<◌}
use mathlib.Core.Path.{◌≡◌, refl}
use mathlib.Core.Bool.{true, false}
use mathlib.Core.Logic.{◌⊎◌}
use native.Mathlib.Omega.{arith}
use microtensor_compute.Common.Tests.{leb, leb→le, le→leb}
use microtensor_compute.Common.Float.{Float}

abbrev literal : ℕ → ℕ → ℕ
literal p q = p * 100 / q

abbrev mul : ℕ → ℕ → ℕ
mul a b = a * b / 100

abbrev div : ℕ → ℕ → ℕ
div a b = a * 100 / b

abbrev round : ℕ → ℕ
round a = (a + 50) / 100

le_mono_div : (a b c : ℕ) → a ≤ b → a / c ≤ b / c
le_mono_div a b c h = grind arith

mul_le : (a b c d : ℕ) → a ≤ b → c ≤ d → a * c ≤ b * d
mul_le a b c d h k = grind arith

ratio_le : (p q : ℕ) → p ≤ q → 0 < q → p * 100 / q ≤ 100
ratio_le p q h k = grind arith

pub ratio_self : (a : ℕ) → 0 < a → a * 100 / a ≡ 100
ratio_self a h = grind arith

pub zero-ratio : (a : ℕ) → 0 < a → 0 * 100 / a ≡ 0
zero-ratio a h = grind arith

pub leb_refl : (a : ℕ) → leb a a ≡ true
leb_refl a = ground arith

pub leb_total : (a b : ℕ) → (leb a b ≡ true) ⊎ (leb b a ≡ true)
leb_total a b = ground arith

pub leb_trans : (a b c : ℕ) → leb a b ≡ true → leb b c ≡ true → leb a c ≡ true
leb_trans a b c h k = ground arith

pub zero-leb : (a : ℕ) → leb 0 a ≡ true
zero-leb a = ground arith

pub literal-leb : (p q : ℕ) → p ≤ q → 0 < q → leb (literal p q) 100 ≡ true
literal-leb p q h k = le→leb _ _ (ratio_le p q h k)

pub of_int_mono : (m n : ℕ) → m ≤ n → leb (m * 100) (n * 100) ≡ true
of_int_mono m n h = ground arith

pub of_int_reflects : (m n : ℕ) → leb (m * 100) (n * 100) ≡ true → m ≤ n
of_int_reflects m n h = ground arith

pub mul-zero_left : (a : ℕ) → mul 0 a ≡ 0
mul-zero_left a = omega arith

pub mul-one_left : (a : ℕ) → mul 100 a ≡ a
mul-one_left a = omega arith

pub mul-one_right : (a : ℕ) → mul a 100 ≡ a
mul-one_right a = omega arith

pub mul_mono :
    (a b c d : ℕ)
    → leb 0 a ≡ true
    → leb a b ≡ true
    → leb 0 c ≡ true
    → leb c d ≡ true
    → leb (mul a c) (mul b d) ≡ true
mul_mono a b c d _ h _ k =
    le→leb _ _ (le_mono_div (a * c) (b * d) 100 (mul_le a b c d (leb→le a b h) (leb→le c d k)))

pub div_mono : (a b c : ℕ) → leb c 0 ≡ false → leb a b ≡ true → leb (div a c) (div b c) ≡ true
div_mono a b c _ h =
    le→leb _ _ (le_mono_div (a * 100) (b * 100) c (mul_le a b 100 100 (leb→le a b h) (omega arith)))

pub positive : (a : ℕ) → leb a 0 ≡ false → 0 < a
positive a h = ground arith

pub round-of_int : (n : ℕ) → round (n * 100) ≡ n
round-of_int n = omega arith

pub round_mono : (a b : ℕ) → leb a b ≡ true → round a ≤ round b
round_mono a b h = ground arith

pub difference-leb : (a b : ℕ) → leb 0 a ≡ true → leb b a ≡ true → leb (a - b) a ≡ true
difference-leb a b h k = ground arith

pub part-leb : (a b : ℕ) → (leb a (a + b) ≡ true) × (leb b (a + b) ≡ true)
part-leb a b = (ground arith, ground arith)

pub zero-add : (a : ℕ) → 0 * 100 + a ≡ a
zero-add a = omega arith

abbrev pub fixed : Float
fixed = record {
  F = ℕ;
  literal = literal;
  of_int = λ n. n * 100;
  add = λ a b. a + b;
  sub = λ a b. a - b;
  mul = mul;
  div = div;
  le = leb;
  is_finite = λ a. true;
  round = round;
  le_refl = λ a f. leb_refl a;
  le_total = λ a b f g. leb_total a b;
  le_trans = leb_trans;
  finite_between = λ a b c f g h k. refl;
  zero-le-literal = λ p q h. zero-leb (literal p q);
  literal-le-one = literal-leb;
  of_int-finite = λ n h. refl;
  of_int_mono = λ m n h k. of_int_mono m n h;
  of_int_reflects = λ m n h k l. of_int_reflects m n l;
  mul-zero_left = λ a f. mul-zero_left a;
  mul-one_left = mul-one_left;
  mul-one_right = mul-one_right;
  mul_finite = λ a b c d h k l m f. refl;
  mul_mono = λ a b c d h k l m f. mul_mono a b c d h k l m;
  add-zero_left = zero-add;
  le-add = λ a b h k. part-leb a b;
  add_shares = λ a b h k l m. refl;
  sub_nonneg = λ a b f h k. (zero-leb (a - b), difference-leb a b (zero-leb a) k);
  div_mono = λ a b c f h k. div_mono a b c h k;
  div-finite = λ a c f g h. refl;
  div_self = λ a f h. ratio_self a (positive a h);
  zero-div = λ a f h. zero-ratio a (positive a h);
  round-of_int = λ n h. round-of_int n;
  round_mono = λ a b f g h k. round_mono a b k;
}
