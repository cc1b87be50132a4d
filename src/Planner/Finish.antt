-- ===== src/Planner/Finish.antt =====
-- `finish_plan` of planners/common.cpp.
use recurlocal.Base.{ℕ, ◌-◌, ◌==◌, ltb, List, [], ◌∷◌, ◌++◌, none, some, if◌then◌else◌, add64}
use recurlocal.Base.Int.{pos}
use recurlocal.Base.Sort.{contains}
use recurlocal.Double.{Double}
use recurlocal.Tensor.{no_desc}
use recurlocal.Graph.{TransitGraph, TensorProfile, find_profile, no_next_use}
use recurlocal.Plan.{
  TransitPlan, TransitAction, TransitDecline, PlanCostModel, CostModel, linear, residency, persist,
  stream, is_kind,
}
use recurlocal.Plan.Index.{finalize}
use recurlocal.Device.{DeviceProfile}
use recurlocal.Ceiling.{compute_ceiling}
use recurlocal.Planner.{TransitPlannerConfig}
use recurlocal.Planner.Candidates.{Candidate}
use recurlocal.Planner.Cost.{
  CostContext, context_from, resident_bytes, modelled_saving, reservation_cost_bytes,
}
use recurlocal.Planner.Mask.{RoleMask}
use recurlocal.Planner.Windows.{cap_windows_per_kernel}

module _ {W : Type 0} where
  -- The first persisting action of each tensor.
  abbrev pub charged_from : List ℕ → List (TransitAction W) → List (TransitAction W)
  charged_from seen [] = []
  charged_from seen (a ∷ rest) =
      if is_kind a.kind persist
      then (if contains a.tensor seen
          then charged_from seen rest
          else a ∷ charged_from (seen ++ (a.tensor ∷ [])) rest)
      else charged_from seen rest

  abbrev pub sum_of : (TransitAction W → ℕ) → ℕ → List (TransitAction W) → ℕ
  sum_of f total [] = total
  sum_of f total (a ∷ rest) = sum_of f (add64 total (f a)) rest

  abbrev pub committed_bytes_of : List (TransitAction W) → ℕ
  committed_bytes_of actions = sum_of (λ a. a.bytes) 0 (charged_from [] actions)

  abbrev pub saved_bytes_of : List (TransitAction W) → ℕ
  saved_bytes_of actions = sum_of (λ a. a.expected_saved_bytes) 0 (charged_from [] actions)

  abbrev streamed_from : ℕ → List (TransitAction W) → ℕ
  streamed_from total [] = total
  streamed_from total (a ∷ rest) =
      streamed_from (if is_kind a.kind stream then add64 total a.bytes else total) rest

  -- The candidate that an action is priced as.
  abbrev pub priced_as : TransitAction W → TensorProfile → Candidate
  priced_as a p = record {
    tensor = a.tensor;
    role = a.role;
    desc = no_desc;
    bytes = p.bytes;
    saved_bytes = p.reused_bytes;
    distance = 0;
    reuse_bytes = if p.min_reuse_bytes == no_next_use then 0 else p.min_reuse_bytes;
    first_consumer = 0;
    last_consumer = 0;
    consumers = [];
    request_id = pos 0;
  }

module _ {W : Type 0} ⦃d : Double W⦄ where
  -- The plan asks to keep the charged actions resident.
  abbrev resident_from : TransitGraph → List (TransitAction W) → CostContext W → CostContext W
  resident_from g [] x = x
  resident_from g (a ∷ rest) x =
      let bytes : ℕ = elim (find_profile a.tensor g.profiles) [
        | none ↦ a.bytes
        | some p ↦ p.bytes
      ] in
      let kept = resident_bytes a.bytes bytes a.hit_ratio x in
      resident_from g rest (record x { resident_bytes = add64 x.resident_bytes kept })

  pub plan_context :
      TransitPlannerConfig W
      → DeviceProfile
      → TransitGraph
      → ℕ
      → List (TransitAction W)
      → CostContext W
  plan_context c device g budget actions =
      let x = resident_from g (charged_from [] actions) (context_from c budget device g) in
      record x { stream_relieved_bytes = streamed_from x.stream_relieved_bytes actions }

  pub reprice_one : TransitGraph → CostContext W → TransitAction W → TransitAction W
  reprice_one g x a = elim (find_profile a.tensor g.profiles) [
    | none ↦ a
    | some p ↦
        let saving = modelled_saving (priced_as a p) a.bytes a.hit_ratio x in
        if is_kind a.kind persist then record a { expected_saved_bytes = saving } else a
  ]

  abbrev pub reprice :
      TransitGraph → CostContext W → List (TransitAction W) → List (TransitAction W)
  reprice g x [] = []
  reprice g x (a ∷ rest) = reprice_one g x a ∷ reprice g x rest

  -- The repriced savings of the tensors that have a profile, each charged once.
  abbrev profiled : TransitGraph → List (TransitAction W) → List (TransitAction W)
  profiled g [] = []
  profiled g (a ∷ rest) = elim (find_profile a.tensor g.profiles) [
    | none ↦ profiled g rest
    | some p ↦ a ∷ profiled g rest
  ]

  pub price :
      CostModel
      → TransitPlannerConfig W
      → DeviceProfile
      → TransitGraph
      → ℕ
      → TransitPlan W
      → TransitPlan W
  price linear c device g budget p = record p {
    cost = record p.cost { resident_bytes = p.cost.committed_bytes };
  }
  price residency c device g budget p =
      let x = plan_context c device g budget p.actions in
      let actions = reprice g x p.actions in
      let repriced = saved_bytes_of (profiled g actions) in
      let reservation = reservation_cost_bytes x in
      record p {
        actions = actions;
        cost = record p.cost {
          predicted_saved_bytes = if ltb reservation repriced then repriced - reservation else 0;
          predicted_gross_saved_bytes = repriced;
          reservation_cost_bytes = reservation;
          resident_bytes = x.resident_bytes;
          stream_relieved_bytes = x.stream_relieved_bytes;
        };
      }

  pub base_cost : DeviceProfile → TransitGraph → RoleMask → ℕ → TransitPlan W → PlanCostModel
  base_cost device g scope budget p = record p.cost {
    step_traffic_bytes = g.step_traffic;
    removable_bytes = g.removable;
    peak_live_bytes = g.peak_live;
    budget_bytes = budget;
    bounded_removable_bytes = (compute_ceiling W g device scope).bounded_saved_bytes;
    committed_bytes = committed_bytes_of p.actions;
    predicted_saved_bytes = saved_bytes_of p.actions;
  }

  pub finish_plan :
      TransitPlannerConfig W
      → DeviceProfile
      → TransitGraph
      → ℕ
      → List TransitDecline
      → RoleMask
      → TransitPlan W
      → TransitPlan W
  finish_plan c device g budget declined scope p =
      let capped = cap_windows_per_kernel c g (record p { declines = p.declines ++ declined }) in
      let costed = record capped { cost = base_cost device g scope budget capped } in
      let priced = price c.cost_model c device g budget costed in
      finalize (record priced { cost = record priced.cost { cost_model = c.cost_model } })
