-- ===== src/Prelude/Float.antt =====
-- Python's `float`, as far as the code computes with it: a type with its operations and tests.
use Prim.Native.Nat.{ℕ, ◌+◌, ◌-◌, ◌*◌, ◌/◌}
use mathlib.Core.Path.{◌≡◌, refl}
use native.Mathlib.Omega.{arith}
use mathlib.Core.Bool.{Bool, true}
use llm_fabric.Prelude.Tests.{if◌then◌else◌, ltb as nat_ltb, leb as nat_leb}

pub record Float : Type 1 where
  pub Carrier : Type 0
  pub of_nat : ℕ → Carrier
  pub add : Carrier → Carrier → Carrier
  pub sub : Carrier → Carrier → Carrier
  pub mul : Carrier → Carrier → Carrier
  pub div : Carrier → Carrier → Carrier
  pub ltb : Carrier → Carrier → Bool
  pub leb : Carrier → Carrier → Bool

-- Facts of IEEE 754 comparison. None of them speaks of a NaN, which compares false with everything.
pub record FloatLaws (F : Float) : Type 0 where
  pub leb_of_ltb : (a b : F.Carrier) → F.ltb a b ≡ true → F.leb a b ≡ true
  pub leb_zero : F.leb (F.of_nat 0) (F.of_nat 0) ≡ true
  pub leb_one : F.leb (F.of_nat 1) (F.of_nat 1) ≡ true
  pub leb_zero_one : F.leb (F.of_nat 0) (F.of_nat 1) ≡ true

module _ (F : Float) where
  open F use {Carrier, ltb}

  -- Python's `max(a, b)` and `min(a, b)`, which keep the first of two that compare equal.
  unfoldable pub fmax : Carrier → Carrier → Carrier
  fmax a b = if ltb a b then b else a

  unfoldable pub fmin : Carrier → Carrier → Carrier
  fmin a b = if ltb b a then b else a

-- Whole numbers, as a float type to run the code with.
abbrev pub whole : Float
whole = record {
  Carrier = ℕ;
  of_nat = λ n. n;
  add = λ a b. a + b;
  sub = λ a b. a - b;
  mul = λ a b. a * b;
  div = λ a b. a / b;
  ltb = nat_ltb;
  leb = nat_leb;
}

pub whole_laws : FloatLaws whole
whole_laws = record {
  leb_of_ltb = λ a b h. ground arith;
  leb_zero = refl;
  leb_one = refl;
  leb_zero_one = refl;
}
