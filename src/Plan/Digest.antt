-- ===== src/Plan/Digest.antt =====
-- `TransitPlan::digest` of src/plan.cpp and the ratios of `PlanCostModel`.
use recurlocal.Base.{ℕ, ◌%◌, ◌^◌, Bool, false, ◌==◌, List, [], ◌∷◌, if◌then◌else◌}
use recurlocal.Base.Hash.{fnv_offset, hash64, hash32}
use recurlocal.Double.{Double, of_nat, to_nat, nought, unit}
use recurlocal.Plan.{TransitAction, TransitPlan, PlanCostModel, kind_value}

module _ {W : Type 0} ⦃d : Double W⦄ where
  -- A hit ratio in steps of 1/10000.
  abbrev pub quantised : W → ℕ
  quantised hit = to_nat (d.add (d.mul hit (of_nat 10_000)) (d.literal 5 1)) % 2 ^ 32

  abbrev hash_action : ℕ → TransitAction W → ℕ
  hash_action h a =
      let placed =
        hash64 (hash64 (hash64 (hash32 h (kind_value a.kind)) a.tensor) a.before_kernel)
          a.after_kernel in
      hash32 (hash32 (hash32 (hash64 placed a.bytes) (quantised a.hit_ratio)) a.event_id)
        a.stream_id

  unfoldable pub hash_actions : ℕ → List (TransitAction W) → ℕ
  hash_actions h [] = h
  hash_actions h (a ∷ rest) = hash_actions (hash_action h a) rest

  pub digest : TransitPlan W → ℕ
  digest p = hash_actions fnv_offset p.actions

  abbrev capped : W → W
  capped share = if d.lt share nought then nought else if d.lt unit share then unit else share

  -- The ratio 1 / (1 - f), 0 where the model is saturated.
  abbrev speedup : W → W
  speedup f = if d.le unit f then nought else d.div unit (d.sub unit f)

  pub predicted_traffic_share : PlanCostModel → W
  predicted_traffic_share c =
      if c.step_traffic_bytes == 0
      then nought
      else capped (d.div (of_nat c.predicted_saved_bytes) (of_nat c.step_traffic_bytes))

  pub predicted_throughput_ratio : PlanCostModel → W
  predicted_throughput_ratio c = speedup (predicted_traffic_share c)

  pub ceiling_throughput_ratio : PlanCostModel → W
  ceiling_throughput_ratio c =
      let bytes =
        if c.bounded_removable_bytes == 0 then c.removable_bytes else c.bounded_removable_bytes in
      let f = d.div (of_nat bytes) (of_nat c.step_traffic_bytes) in
      if c.step_traffic_bytes == 0 then unit else speedup (if d.lt f nought then nought else f)

pub ceiling_saturated : (W : Type 0) ⦃d : Double W⦄ → PlanCostModel → Bool
ceiling_saturated W ⦃d⦄ c =
    let share : W = d.div (of_nat c.removable_bytes) (of_nat c.step_traffic_bytes) in
    if c.step_traffic_bytes == 0 then false else d.lt (d.literal 99 2) share
