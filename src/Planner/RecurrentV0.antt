-- ===== src/Planner/RecurrentV0.antt =====
-- `RecurrentV0Planner` of planners/recurrent_v0/recurrent_v0_planner.cpp, which plans through the recurrent
-- planner, and `make_planner` of src/planner_registry.cpp.
use Prim.Native.String.{String}
use text.Mathlib.Text.{◌==◌ as ◌=s=◌}
use recurlocal.Base.{
  ℕ, suc, ◌/◌, Bool, true, false, not, ◌||◌, ◌==◌, List, [], ◌∷◌, ◌++◌, Option, none, some,
  if◌then◌else◌, length, add64,
}
use recurlocal.Base.Int.{ℤ, pos, ltℤ}
use recurlocal.Double.{Double}
use recurlocal.Tensor.{recurrent_state}
use recurlocal.Registry.{Registry}
use recurlocal.Graph.{TransitGraph}
use recurlocal.Plan.{TransitPlan, TransitDecline, no_plan, budget_exhausted, below_min_hit_ratio}
use recurlocal.Device.{DeviceProfile, RuntimeState}
use recurlocal.Planner.{TransitPlannerConfig, PlanInput}
use recurlocal.Planner.Mask
use recurlocal.Planner.Candidates.{Candidate, build_candidates, resolve_budget}
use recurlocal.Planner.Admit.{decline_of}
use recurlocal.Planner.Emit.{emit_persist, emit_prefetch}
use recurlocal.Planner.Finish.{finish_plan}
use recurlocal.Planner.Greedy.{build_greedy_plan, build_baseline_plan}
use recurlocal.Planner.Concurrency.{build_concurrency_plan}
use recurlocal.Planner.Budgeted.{build_plan}
use recurlocal.Recurrent.{
  PlannerConfig, DeviceCaps, LocalityPlanner, RecurrentGeometry, LayerPlan, LocalityMode,
  PreTouchStrategy, HotSetPolicy, HotSetModel, SetAsidePolicy, PrefetchSchedule, WindowScope,
  WindowTarget, PreTouchCoverage, PrefetchJoin, WindowAttach,
}
use recurlocal.Recurrent.Budget.{validate}
use recurlocal.Recurrent.LayerPlans.{plan_for_layer}
use recurlocal.Runtime.{ITransitPlanner}

-- `static_cast<int>(candidates.size())`, of a list shorter than 2 ^ 31.
abbrev count_of : List Candidate → ℤ
count_of ks = pos (length ks)

unfoldable pub total_bytes : ℕ → List Candidate → ℕ
total_bytes total [] = total
total_bytes total (k ∷ ks) = total_bytes (add64 total k.bytes) ks

-- What the loop has: the plan and the declines.
abbrev pub V0State : Type 0 → Type 0
V0State W = TransitPlan W × List TransitDecline

abbrev mode_of : Bool → Bool → LocalityMode
mode_of true true = LocalityMode.combined
mode_of true false = LocalityMode.persist
mode_of false true = LocalityMode.prefetch
mode_of false false = LocalityMode.baseline

abbrev pub caps_of : DeviceProfile → DeviceCaps
caps_of device = record {
  l2_bytes = device.l2_bytes;
  persisting_l2_max_bytes = device.persisting_l2_max_bytes;
  access_policy_max_window_bytes = device.access_policy_max_window_bytes;
}

abbrev pub geometry_of : List Candidate → RuntimeState → TransitGraph → RecurrentGeometry
geometry_of ks runtime g = record {
  recurrent_layers = count_of ks;
  bytes_per_layer = if length ks == 0 then 0 else total_bytes 0 ks / length ks;
  sequences = if ltℤ (pos 0) runtime.active_requests then runtime.active_requests else pos 1;
  streamed_bytes_per_token = g.step_traffic;
}

module _ {W : Type 0} ⦃d : Double W⦄ where
  -- The v0 configuration that the dials amount to; the other fields keep their defaults.
  abbrev pub legacy_of : TransitPlannerConfig W → PlannerConfig W
  legacy_of c = record {
    mode = mode_of (Mask.has c.persist_roles recurrent_state) c.prefetch_enabled;
    persisting_budget_fraction = c.budget_fraction;
    hit_ratio = c.hit_ratio;
    prefetch_distance = c.prefetch_distance;
    max_hot_window_bytes = 0;
    pre_touch = PreTouchStrategy.vec4;
    hot_set_policy = HotSetPolicy.proportional;
    set_aside_policy = SetAsidePolicy.fixed;
    min_residency = d.literal 50 2;
    prefetch_schedule = PrefetchSchedule.uniform;
    hot_set_model = HotSetModel.token_footprint;
    window_scope = WindowScope.layer;
    window_target = WindowTarget.matrix;
    pre_touch_coverage = PreTouchCoverage.matrix;
    prefetch_join = PrefetchJoin.per_layer;
    window_attach = WindowAttach.stream;
    min_hit_ratio = c.min_hit_ratio;
  }

  abbrev pub legacy_planner_of :
      TransitPlannerConfig W → DeviceProfile → RuntimeState → LocalityPlanner W
  legacy_planner_of c device runtime = record {
    caps = caps_of device;
    config = legacy_of c;
    granted_l2_set_aside = runtime.granted_budget_bytes;
  }

  unfoldable pub v0_step : LayerPlan W → Candidate → V0State W → V0State W
  v0_step layer k (p, declined) =
      let reason = if layer.hot_set_oversubscribed then budget_exhausted else below_min_hit_ratio in
      if not layer.use_persisting_window || layer.hot_window_bytes == 0
      then (p, declined ++ (decline_of k reason ∷ []))
      else (emit_persist k layer.hot_window_bytes layer.hit_ratio false p, declined)

  -- The loop over the candidates, each the layer of its index.
  unfoldable pub v0_fill :
      LocalityPlanner W → RecurrentGeometry → ℕ → List Candidate → V0State W → V0State W
  v0_fill planner geometry i [] s = s
  v0_fill planner geometry i (k ∷ ks) s =
      let layer = plan_for_layer planner k.bytes true geometry (pos i) in
      v0_fill planner geometry (suc i) ks (v0_step layer k s)

  pub v0_plan_for :
      TransitPlannerConfig W
      → DeviceProfile
      → RuntimeState
      → Registry
      → TransitGraph
      → TransitPlan W
  v0_plan_for c device runtime r g =
      let start : TransitPlan W = record no_plan { planner_name = "recurrent_v0" } in
      let scope = Mask.of recurrent_state in
      let (candidates, declined) = build_candidates c.reuse_metric scope r g in
      let (filled, refused) =
        v0_fill (legacy_planner_of c device runtime) (geometry_of candidates runtime g) 0 candidates
          (start, declined) in
      elim (validate (legacy_of c)) [
        | some problem ↦ start
        | none ↦
            finish_plan c device g (resolve_budget c device runtime) refused scope
              (emit_prefetch c device g candidates filled)
      ]

  pub build_v0_plan : TransitPlannerConfig W → PlanInput → TransitPlan W
  build_v0_plan c input = elim input.graph [
    | none ↦ record no_plan { planner_name = "recurrent_v0" }
    | some g ↦ elim input.registry [
      | none ↦ record no_plan { planner_name = "recurrent_v0" }
      | some r ↦ v0_plan_for c input.device input.runtime r g
    ]
  ]

  abbrev planner_of : String → (PlanInput → TransitPlan W) → Option (ITransitPlanner W)
  planner_of name build = some (record { build_plan = build; name = name })

  -- `make_planner`: none for a null or an unknown name.
  unfoldable pub make_planner : Option String → TransitPlannerConfig W → Option (ITransitPlanner W)
  make_planner none c = none
  make_planner (some name) c =
      if name =s= "baseline"
      then planner_of "baseline" build_baseline_plan
      else if name =s= "recurrent_v0"
      then planner_of "recurrent_v0" (build_v0_plan c)
      else if name =s= "greedy"
      then planner_of "greedy" (build_greedy_plan c)
      else if name =s= "budgeted"
      then planner_of "budgeted" (build_plan c)
      else if name =s= "concurrency"
      then planner_of "concurrency" (build_concurrency_plan c)
      else none
