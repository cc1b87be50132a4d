-- ===== src/Double.antt =====
-- The `double` arithmetic that the source uses, as a parameter; a theorem names what it needs of it.
-- `a > b` is written `lt b a`.
use recurlocal.Base.{ℕ, ◌+◌, ◌-◌, ◌*◌, ◌/◌, ◌^◌, Bool, ltb, leb}

pub record Double (W : Type 0) : Type 0 where
  -- `static_cast<double>(n)` and `static_cast<std::size_t>(x)`.
  pub of_nat : ℕ → W
  pub to_nat : W → ℕ
  -- The literal `n * 10^-k`.
  pub literal : ℕ → ℕ → W
  pub add : W → W → W
  pub sub : W → W → W
  pub mul : W → W → W
  pub div : W → W → W
  pub neg : W → W
  pub pow : W → W → W
  pub sqrt : W → W
  pub lt : W → W → Bool
  pub le : W → W → Bool

abbrev pub of_nat : {W : Type 0} ⦃d : Double W⦄ → ℕ → W
of_nat ⦃d⦄ = d.of_nat

abbrev pub to_nat : {W : Type 0} ⦃d : Double W⦄ → W → ℕ
to_nat ⦃d⦄ = d.to_nat

-- The literals 0.0 and 1.0.
abbrev pub nought : {W : Type 0} ⦃d : Double W⦄ → W
nought ⦃d⦄ = d.of_nat 0

abbrev pub unit : {W : Type 0} ⦃d : Double W⦄ → W
unit ⦃d⦄ = d.of_nat 1

-- Fixed point with four decimals, a `Double` to run the code with. `neg` gives 0 and `pow` its base.
abbrev pub Fixed : Type 0
Fixed = ℕ

instance abbrev pub fixed_double : Double Fixed
fixed_double = record {
  of_nat = λ n. n * 10_000;
  to_nat = λ x. x / 10_000;
  literal = λ n k. n * 10_000 / 10 ^ k;
  add = λ x y. x + y;
  sub = λ x y. x - y;
  mul = λ x y. x * y / 10_000;
  div = λ x y. x * 10_000 / y;
  neg = λ x. 0;
  pow = λ x y. x;
  sqrt = λ x. x;
  lt = ltb;
  le = leb;
}
