-- ===== src/Recurrent/Budget.antt =====
-- How much L2 is set aside: the budget part of src/recurrent_planner.cpp, with `validate`.
use Prim.Native.String.{String}
use recurlocal.Base.{
  ◌⊎◌, inl, inr, Bool-cases, inr, inl, ◌⊎◌, ℕ, ◌≤◌, ◌≡◌, Bool, false, ◌&&◌, ◌||◌, not, ◌==◌, leb,
  if◌then◌else◌, min, arith, Option, none, some,
}
use recurlocal.Base.Int.{pos, ltℤ}
use recurlocal.Double.{Double, of_nat, to_nat, nought, unit}
use recurlocal.Recurrent.{
  PlannerConfig, DeviceCaps, LocalityPlanner, RecurrentGeometry, SetAsidePolicy,
}
use recurlocal.Recurrent.Saturating.{token_footprint_bytes, windowed_footprint_bytes}

-- `kMaxPrefetchDistance`.
abbrev pub max_prefetch_distance : ℕ
max_prefetch_distance = 8

module _ {W : Type 0} ⦃d : Double W⦄ where
  abbrev in_unit : W → Bool
  in_unit x = d.le nought x && d.le x unit

  -- The first dial that is out of range.
  unfoldable pub validate : PlannerConfig W → Option String
  validate c =
      if not (in_unit c.persisting_budget_fraction)
      then some "persisting_budget_fraction must be in [0,1]"
      else if not (in_unit c.hit_ratio)
      then some "hit_ratio must be in [0,1]"
      else if ltℤ c.prefetch_distance (pos 0) || ltℤ (pos max_prefetch_distance) c.prefetch_distance
      then some "prefetch_distance must be in [0,8]"
      else if not (in_unit c.min_hit_ratio)
      then some "min_hit_ratio must be in [0,1]"
      else if not (in_unit c.min_residency)
      then some "min_residency must be in [0,1]"
      else none

  -- The constructor, which throws what `validate` says.
  unfoldable pub planner_of : DeviceCaps → PlannerConfig W → String ⊎ LocalityPlanner W
  planner_of caps config = elim (validate config) [
    | some problem ↦ inl problem
    | none ↦ inr (record { caps = caps; config = config; granted_l2_set_aside = 0 })
  ]

  -- `recommended_l2_set_aside()`.
  unfoldable pub fixed_set_aside : LocalityPlanner W → ℕ
  fixed_set_aside p =
      let capacity = p.caps.persisting_l2_max_bytes in
      let fraction = p.config.persisting_budget_fraction in
      let requested =
        if d.lt fraction unit then to_nat (d.mul (of_nat capacity) fraction) else capacity in
      let held = min requested capacity in
      if capacity == 0 || d.le fraction nought
      then 0
      else if p.caps.l2_bytes == 0
      then held
      else min held p.caps.l2_bytes

  pub achievable_residency : LocalityPlanner W → RecurrentGeometry → W
  achievable_residency p g =
      let footprint = token_footprint_bytes g in
      let capacity = p.caps.persisting_l2_max_bytes in
      if footprint == 0 || capacity == 0
      then nought
      else if leb footprint capacity
      then unit
      else d.div (of_nat capacity) (of_nat footprint)

  -- `recommended_l2_set_aside(geometry)`.
  unfoldable pub recommended_l2_set_aside : LocalityPlanner W → RecurrentGeometry → ℕ
  recommended_l2_set_aside p g =
      let footprint = token_footprint_bytes g in
      let windowed = windowed_footprint_bytes g in
      let capacity = p.caps.persisting_l2_max_bytes in
      let sized = min (if windowed == 0 then footprint else windowed) capacity in
      let by_workload = λ (decline : Bool).
        if footprint == 0 || capacity == 0
        then fixed_set_aside p
        else if d.le p.config.persisting_budget_fraction nought
        then 0
        else if decline
        then 0
        else sized in
      elim p.config.set_aside_policy [
        | SetAsidePolicy.fixed ↦ fixed_set_aside p
        | SetAsidePolicy.fit_footprint ↦ by_workload false
        | SetAsidePolicy.residency ↦
            by_workload (d.lt (achievable_residency p g) p.config.min_residency)
      ]

  -- What the driver granted, or the recommendation while that is unknown.
  abbrev pub effective_l2_budget : LocalityPlanner W → ℕ
  effective_l2_budget p =
      if p.granted_l2_set_aside == 0 then fixed_set_aside p else p.granted_l2_set_aside

  -- The set-aside never exceeds the persisting capacity, and without a workload rule at work it
  -- does not exceed a reported L2 size either.
  pub fixed_set_aside-bound :
      (p : LocalityPlanner W)
      → (fixed_set_aside p ≤ p.caps.persisting_l2_max_bytes)
        × ((p.caps.l2_bytes ≡ 0) ⊎ (fixed_set_aside p ≤ p.caps.l2_bytes))
  unfolding fixed_set_aside
  fixed_set_aside-bound p = (
    ground arith,
    elim (Bool-cases (p.caps.l2_bytes == 0)) [
      | inl unreported ↦ inl (ground arith)
      | inr reported ↦ inr (ground arith)
    ],
  )

  pub recommended_l2_set_aside-bound :
      (p : LocalityPlanner W) (g : RecurrentGeometry)
      → recommended_l2_set_aside p g ≤ p.caps.persisting_l2_max_bytes
  unfolding recommended_l2_set_aside
  recommended_l2_set_aside-bound p g = ground (arith, fixed_set_aside-bound p)
