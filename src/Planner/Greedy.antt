-- ===== src/Planner/Greedy.antt =====
-- `GreedyPlanner` of planners/greedy/greedy_planner.cpp and `BaselinePlanner` of
-- planners/baseline/baseline_planner.cpp, with the default configuration that the latter uses.
pub mod Accepted
use recurlocal.Base.{
  ℕ, ◌-◌, ◌*◌, Bool, true, false, ◌==◌, List, [], ◌∷◌, ◌++◌, none, some, if◌then◌else◌, min,
}
use recurlocal.Base.Int.{ℤ, pos}
use recurlocal.Base.Sort.{sort}
use recurlocal.Double.{Double, of_nat, nought, unit}
use recurlocal.Registry.{Registry}
use recurlocal.Graph.{TransitGraph, ReuseMetric}
use recurlocal.Plan.{
  TransitPlan, TransitDecline, no_plan, budget_exhausted, below_min_hit_ratio, CostModel,
}
use recurlocal.Device.{DeviceProfile, RuntimeState}
use recurlocal.Planner.{
  TransitPlannerConfig, PlanInput, AdmissionRule, PrefetchTiming, WindowBinding, WindowPreference,
}
use recurlocal.Planner.Mask
use recurlocal.Planner.Candidates.{Candidate, build_candidates, resolve_budget}
use recurlocal.Planner.Cost.{density, urgency, ratio}
use recurlocal.Planner.Admit.{decline_of}
use recurlocal.Planner.Emit.{emit_persist, emit_prefetch}
use recurlocal.Planner.Streaming.{emit_stream_hints}
use recurlocal.Planner.Finish.{finish_plan}

-- The state of a loop that emits as it goes.
pub record Emission (W : Type 0) : Type 0 where
  pub plan : TransitPlan W
  pub declined : List TransitDecline
  pub remaining : ℕ

-- Density times urgency, the better one first.
abbrev pub scores_above : (W : Type 0) ⦃d : Double W⦄ → Candidate → Candidate → Bool
scores_above W ⦃d⦄ a b =
    d.lt (d.mul (density {W = W} b) (urgency b)) (d.mul (density {W = W} a) (urgency a))

module _ {W : Type 0} ⦃d : Double W⦄ where
  -- What the loop does with one candidate.
  unfoldable pub greedy_step : TransitPlannerConfig W → Candidate → Emission W → Emission W
  greedy_step c k s =
      let granted = min s.remaining k.bytes in
      let hit = d.mul c.hit_ratio (ratio granted k.bytes) in
      if s.remaining == 0
      then record s { declined = s.declined ++ (decline_of k budget_exhausted ∷ []) }
      else if d.lt hit c.min_hit_ratio
      then record s { declined = s.declined ++ (decline_of k below_min_hit_ratio ∷ []) }
      else record s {
        plan = emit_persist k granted c.hit_ratio false s.plan;
        remaining = s.remaining - granted;
      }

  unfoldable pub greedy_fill : TransitPlannerConfig W → List Candidate → Emission W → Emission W
  greedy_fill c [] s = s
  greedy_fill c (k ∷ ks) s = greedy_fill c ks (greedy_step c k s)

  -- `build_plan` on a valid input.
  pub greedy_plan_for :
      TransitPlannerConfig W
      → DeviceProfile
      → RuntimeState
      → Registry
      → TransitGraph
      → TransitPlan W
  greedy_plan_for c device runtime r g =
      let (candidates, declined) = build_candidates c.reuse_metric c.persist_roles r g in
      let budget = resolve_budget c device runtime in
      let ordered = sort (scores_above W) candidates in
      let filled = greedy_fill c ordered (record {
        plan = record no_plan { planner_name = "greedy" };
        declined = declined;
        remaining = budget;
      }) in
      finish_plan c device g budget filled.declined c.persist_roles
        (emit_stream_hints c r g budget (emit_prefetch c device g ordered filled.plan))

  pub build_greedy_plan : TransitPlannerConfig W → PlanInput → TransitPlan W
  build_greedy_plan c input = elim input.graph [
    | none ↦ record no_plan { planner_name = "greedy" }
    | some g ↦ elim input.registry [
      | none ↦ record no_plan { planner_name = "greedy" }
      | some r ↦ greedy_plan_for c input.device input.runtime r g
    ]
  ]

  -- `TransitPlannerConfig{}`.
  abbrev pub default_config : TransitPlannerConfig W
  default_config = record {
    persist_roles = Mask.everything;
    prefetch_roles = Mask.nothing;
    stream_roles = Mask.nothing;
    admission = AdmissionRule.density;
    reuse_metric = ReuseMetric.bytes;
    budget_fraction = d.literal 75 2;
    hit_ratio = d.literal 70 2;
    min_hit_ratio = d.literal 5 2;
    role_floor_share = d.literal 25 2;
    max_reuse_distance_budgets = nought;
    window_binding = WindowBinding.per_consumer;
    max_windows_per_kernel = pos 0;
    window_preference = WindowPreference.densest;
    prefetch_enabled = false;
    prefetch_timing = PrefetchTiming.fixed_distance;
    prefetch_distance = pos 1;
    prefetch_min_bytes = 64 * 1024;
    prefetch_join_at_end = false;
    stream_min_bytes = 1024 * 1024;
    cost_model = CostModel.residency;
    residency_beta = d.literal 1108 4;
    reservation_cost = d.literal 86 5;
    stream_relief = unit;
    cache_line_bytes = 128;
    max_actions = 4096;
  }

  -- The baseline emits nothing, and reports what it did not do.
  pub build_baseline_plan : PlanInput → TransitPlan W
  build_baseline_plan input = elim input.graph [
    | none ↦ record no_plan { planner_name = "baseline" }
    | some g ↦ elim input.registry [
      | none ↦ record no_plan { planner_name = "baseline" }
      | some r ↦
          finish_plan default_config input.device g 0
            (build_candidates ReuseMetric.bytes Mask.nothing r g).1 Mask.everything
            (record no_plan { planner_name = "baseline" })
    ]
  ]
