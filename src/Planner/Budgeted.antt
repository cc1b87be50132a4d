-- ===== src/Planner/Budgeted.antt =====
-- `BudgetedPlanner` of planners/budgeted/budgeted_planner.cpp.
use recurlocal.Base.{
  ℕ, Bool, true, false, not, ◌&&◌, ◌==◌, ltb, List, [], ◌∷◌, ◌++◌, none, some, if◌then◌else◌,
  get_elem?,
}
use recurlocal.Double.{Double, nought}
use recurlocal.Registry.{Registry}
use recurlocal.Graph.{TransitGraph}
use recurlocal.Plan.{
  TransitPlan, TransitDecline, no_plan, budget_exhausted, not_supported, too_large, reuse_too_far,
}
use recurlocal.Device.{DeviceProfile, RuntimeState, supports_persisting_l2, max_window_bytes}
use recurlocal.Planner.{
  TransitPlannerConfig, PlanInput, density, quota, proportional, reuse_order, survival, role_floor,
  sticky, per_consumer, WindowBinding,
}
use recurlocal.Planner.Candidates.{Candidate, Screened, build_candidates, resolve_budget}
use recurlocal.Planner.Cost.{ratio, context_from}
use recurlocal.Planner.Admit
use recurlocal.Planner.Admit.Survival.{admit_survival}
use recurlocal.Planner.Admit.Floor.{admit_role_floor}
use recurlocal.Planner.Emit.{emit_persist, emit_prefetch}
use recurlocal.Planner.Streaming.{emit_stream_hints}
use recurlocal.Planner.Finish.{finish_plan}

abbrev is_sticky : WindowBinding → Bool
is_sticky sticky = true
is_sticky per_consumer = false

abbrev decline_all : DeviceProfile → List Candidate → List TransitDecline
decline_all device [] = []
decline_all device (k ∷ ks) =
    Admit.decline_of k (if supports_persisting_l2 device then budget_exhausted else not_supported)
    ∷ decline_all device ks

module _ {W : Type 0} ⦃d : Double W⦄ where
  -- What `screen` does with one candidate: it declines or keeps it.
  unfoldable pub screen_one :
      TransitPlannerConfig W → DeviceProfile → ℕ → Candidate → Screened → Screened
  screen_one c device budget k (kept, declined) =
      let limit = max_window_bytes device in
      let far = d.lt c.max_reuse_distance_budgets (ratio k.reuse_bytes budget) in
      if not (limit == 0) && ltb limit k.bytes && ltb budget k.bytes
      then (kept, declined ++ (Admit.decline_of k too_large ∷ []))
      else if d.lt nought c.max_reuse_distance_budgets && not (budget == 0) && far
      then (kept, declined ++ (Admit.decline_of k reuse_too_far ∷ []))
      else (kept ++ (k ∷ []), declined)

  unfoldable pub screen :
      TransitPlannerConfig W → DeviceProfile → ℕ → List Candidate → Screened → Screened
  unfolding screen_one
  screen c device budget [] s = s
  screen c device budget (k ∷ ks) s = screen c device budget ks (screen_one c device budget k s)

  pub admit :
      TransitPlannerConfig W
      → DeviceProfile
      → TransitGraph
      → List Candidate
      → ℕ
      → List TransitDecline
      → Admit.Filling W
  admit c device g cs budget declined = elim c.admission [
    | density ↦ Admit.admit_ordered c (Admit.by_density W) cs budget declined
    | reuse_order ↦ Admit.admit_ordered c Admit.by_urgency cs budget declined
    | quota ↦ Admit.admit_quota c cs budget declined
    | proportional ↦ Admit.admit_proportional c cs budget declined
    | role_floor ↦ admit_role_floor c cs budget declined
    | survival ↦ admit_survival c (context_from c budget device g) cs budget declined
  ]

  -- At most the first grant is sticky.
  pub emit_grants : List Candidate → Bool → List (Admit.Grant W) → TransitPlan W → TransitPlan W
  emit_grants cs first [] p = p
  emit_grants cs first (g ∷ gs) p = elim (get_elem? cs g.index) [
    | none ↦ emit_grants cs first gs p
    | some k ↦ emit_grants cs false gs (emit_persist k g.bytes g.hit_ratio first p)
  ]

  -- `build_plan` on a valid input.
  pub plan_for :
      TransitPlannerConfig W
      → DeviceProfile
      → RuntimeState
      → Registry
      → TransitGraph
      → TransitPlan W
  plan_for c device runtime r g =
      let start : TransitPlan W = record no_plan { planner_name = "budgeted" } in
      let (candidates, declined) = build_candidates c.reuse_metric c.persist_roles r g in
      let budget = resolve_budget c device runtime in
      let (kept, screened) = screen c device budget candidates ([], declined) in
      let filled = admit c device g kept budget screened in
      let persisting = emit_grants kept (is_sticky c.window_binding) filled.grants start in
      let fetching = emit_prefetch c device g kept persisting in
      if budget == 0
      then finish_plan c device g budget (declined ++ decline_all device candidates) c.persist_roles
          (emit_stream_hints c r g budget start)
      else finish_plan c device g budget filled.declined c.persist_roles
          (emit_stream_hints c r g budget fetching)

  -- `build_plan`: an empty plan without a graph or a registry.
  pub build_plan : TransitPlannerConfig W → PlanInput → TransitPlan W
  build_plan c input = elim input.graph [
    | none ↦ record no_plan { planner_name = "budgeted" }
    | some g ↦ elim input.registry [
      | none ↦ record no_plan { planner_name = "budgeted" }
      | some r ↦ plan_for c input.device input.runtime r g
    ]
  ]
