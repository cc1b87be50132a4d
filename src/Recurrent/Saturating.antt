-- ===== src/Recurrent/Saturating.antt =====
-- The saturating arithmetic of src/recurrent_planner.cpp and the footprints that it computes.
use recurlocal.Base.{
  suc, inr, inl, ℕ, zero, suc, ◌+◌, ◌-◌, ◌*◌, ◌/◌, ◌≤◌, ◌≡◌, true, ◌||◌, ◌==◌, ltb, if◌then◌else◌,
  min, arith, Bool-cases, add64, mul64, word_max,
}
use recurlocal.Base.Int.{pos, ltℤ, pos_part}
use native.Mathlib.Nat.{le-div_iff_mul-le}
use recurlocal.Recurrent.{RecurrentGeometry, valid}

unfoldable pub saturating_mul : ℕ → ℕ → ℕ
saturating_mul a b =
    if a == 0 || b == 0 then 0 else if ltb (word_max / b) a then word_max else mul64 a b

unfoldable pub saturating_add : ℕ → ℕ → ℕ
saturating_add a b = if ltb (word_max - b) a then word_max else add64 a b

-- At least one sequence.
abbrev pub sequences_of : RecurrentGeometry → ℕ
sequences_of g = if ltℤ (pos 0) g.sequences then pos_part g.sequences else 1

unfoldable pub token_footprint_bytes : RecurrentGeometry → ℕ
token_footprint_bytes g =
    if valid g
    then saturating_mul (saturating_mul g.bytes_per_layer (pos_part g.recurrent_layers))
        (sequences_of g)
    else 0

unfoldable pub windowed_footprint_bytes : RecurrentGeometry → ℕ
windowed_footprint_bytes g =
    if valid g then saturating_mul g.bytes_per_layer (pos_part g.recurrent_layers) else 0

product_zero : (a b : ℕ) → (a == 0 || b == 0) ≡ true → a * b ≡ 0
product_zero zero b z = omega arith
product_zero (suc a) zero z = omega arith
product_zero (suc a) (suc b) z = ground arith

-- Multiplication saturates: the result is the product or the largest word.
pub saturating_mul_lem : (a b : ℕ) → saturating_mul a b ≡ min (a * b) word_max
unfolding saturating_mul
saturating_mul_lem a b = elim (Bool-cases (a == 0 || b == 0)) [
  | inl z ↦ ground (arith, product_zero a b z)
  | inr nz ↦ elim (Bool-cases (ltb (word_max / b) a)) [
    | inl big ↦ ground (arith, (le-div_iff_mul-le {k = b} {x = a} {y = word_max} (ground arith)).1)
    | inr small ↦
        ground (arith, (le-div_iff_mul-le {k = b} {x = a} {y = word_max} (ground arith)).0)
  ]
]

pub saturating_add_lem : (a b : ℕ) → b ≤ word_max → saturating_add a b ≡ min (a + b) word_max
unfolding saturating_add
saturating_add_lem a b h = ground arith
