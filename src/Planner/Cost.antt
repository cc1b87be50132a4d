-- ===== src/Planner/Cost.antt =====
-- The cost model of planners/common.cpp.
use recurlocal.Base.{ℕ, ◌*◌, ◌/◌, ◌||◌, ◌==◌, ltb, if◌then◌else◌}
use recurlocal.Double.{Double, of_nat, to_nat, nought, unit}
use recurlocal.Plan.{CostModel, linear, residency}
use recurlocal.Device.{DeviceProfile}
use recurlocal.Graph.{TransitGraph}
use recurlocal.Planner.{TransitPlannerConfig}
use recurlocal.Planner.Candidates.{Candidate}

pub record CostContext (W : Type 0) : Type 0 where
  pub model : CostModel
  pub budget_bytes : ℕ
  pub resident_bytes : ℕ
  pub stream_relieved_bytes : ℕ
  pub l2_bytes : ℕ
  pub step_traffic_bytes : ℕ
  pub beta : W
  pub reservation_cost : W
  pub stream_relief : W
  pub cache_line_bytes : ℕ

-- `CostContext::from`.
abbrev pub context_from :
    {W : Type 0} → TransitPlannerConfig W → ℕ → DeviceProfile → TransitGraph → CostContext W
context_from c budget device g = record {
  model = c.cost_model;
  budget_bytes = budget;
  resident_bytes = 0;
  stream_relieved_bytes = 0;
  l2_bytes = device.l2_bytes;
  step_traffic_bytes = g.step_traffic;
  beta = c.residency_beta;
  reservation_cost = c.reservation_cost;
  stream_relief = c.stream_relief;
  cache_line_bytes = c.cache_line_bytes;
}

module _ {W : Type 0} ⦃d : Double W⦄ where
  abbrev pub ratio : ℕ → ℕ → W
  ratio a b = d.div (of_nat a) (of_nat b)

  -- `Candidate::density` and `Candidate::urgency`.
  pub density : Candidate → W
  density c = if c.bytes == 0 then nought else ratio c.saved_bytes c.bytes

  pub urgency : Candidate → W
  urgency c = d.div unit (d.add unit (of_nat c.distance))

  abbrev pub floored : W → ℕ
  floored x = if d.le x nought then 0 else to_nat x

  -- `modelled_saving` without a context: linear in the resident share.
  pub linear_saving : Candidate → ℕ → W → ℕ
  linear_saving c granted hit =
      let share = ratio granted c.bytes in
      let capped = if d.lt unit share then unit else share in
      if c.bytes == 0 || granted == 0
      then 0
      else floored (d.mul (d.mul (of_nat c.saved_bytes) capped) hit)

  pub resident_bytes : ℕ → ℕ → W → CostContext W → ℕ
  resident_bytes granted tensor_bytes hit x =
      let covered = if ltb granted tensor_bytes then granted else tensor_bytes in
      let kept = d.mul (of_nat covered) hit in
      let line = if x.cache_line_bytes == 0 then 1 else x.cache_line_bytes in
      if tensor_bytes == 0 || granted == 0 || d.le hit nought
      then 0
      else if d.le kept nought
      then 0
      else elim x.model [ linear ↦ to_nat kept | residency ↦ to_nat kept / line * line ]

  pub survival_in : Candidate → CostContext W → W
  survival_in c x =
      let reuse = of_nat c.reuse_bytes in
      let relieved = d.mul (of_nat x.stream_relieved_bytes) x.stream_relief in
      let interfering = if d.lt relieved reuse then d.sub reuse relieved else nought in
      let here = of_nat x.resident_bytes in
      let held = d.div here interfering in
      if x.budget_bytes == 0
      then nought
      else if d.le interfering nought
      then unit
      else if d.le here nought
      then nought
      else if d.le unit held
      then unit
      else if d.le x.beta nought
      then unit
      else d.pow held x.beta

  pub survival : Candidate → CostContext W → W
  survival c x = elim x.model [ linear ↦ unit | residency ↦ survival_in c x ]

  pub reservation_cost_bytes : CostContext W → ℕ
  reservation_cost_bytes x =
      let share = ratio x.resident_bytes x.l2_bytes in
      let cost = d.mul (d.mul x.reservation_cost share) (of_nat x.step_traffic_bytes) in
      elim x.model [
        | linear ↦ 0
        | residency ↦ if x.l2_bytes == 0 || x.step_traffic_bytes == 0 then 0 else floored cost
      ]

  pub residency_saving : Candidate → ℕ → W → CostContext W → ℕ
  residency_saving c granted hit x =
      let kept = resident_bytes granted c.bytes hit x in
      let mine : CostContext W = record x { resident_bytes = kept } in
      if c.bytes == 0 || granted == 0
      then 0
      else if kept == 0
      then 0
      else floored (d.mul (d.mul (of_nat c.saved_bytes) (ratio kept c.bytes)) (survival c mine))

  -- `modelled_saving` under an explicit cost model.
  pub modelled_saving : Candidate → ℕ → W → CostContext W → ℕ
  modelled_saving c granted hit x = elim x.model [
    | linear ↦ linear_saving c granted hit
    | residency ↦ residency_saving c granted hit x
  ]
