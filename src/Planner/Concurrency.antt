-- ===== src/Planner/Concurrency.antt =====
-- `ConcurrencyPlanner` of planners/concurrency/concurrency_planner.cpp.
use recurlocal.Base.{
  ℕ, ◌-◌, ◌/◌, Bool, false, ◌||◌, ◌==◌, List, [], ◌∷◌, ◌++◌, none, some, if◌then◌else◌, min, max,
  length, filterb, add64,
}
use recurlocal.Base.Int.{ℤ, eqℤ, ltℤ}
use recurlocal.Base.Sort.{sort}
use recurlocal.Double.{Double, nought}
use recurlocal.Registry.{Registry}
use recurlocal.Graph.{TransitGraph}
use recurlocal.Plan.{TransitPlan, TransitDecline, no_plan, budget_exhausted}
use recurlocal.Device.{DeviceProfile, RuntimeState}
use recurlocal.Planner.{TransitPlannerConfig, PlanInput}
use recurlocal.Planner.Candidates.{Candidate, build_candidates, resolve_budget}
use recurlocal.Planner.Cost.{ratio}
use recurlocal.Planner.Admit.{decline_of}
use recurlocal.Planner.Emit.{emit_persist, emit_prefetch}
use recurlocal.Planner.Streaming.{emit_stream_hints}
use recurlocal.Planner.Finish.{finish_plan}
use recurlocal.Planner.Greedy.{scores_above}

-- `ShareRule`; `Priority` is never chosen.
pub data ShareRule : Type 0 where
  even priority concentrate : ShareRule

abbrev pub of_request : ℤ → Candidate → Bool
of_request r k = eqℤ k.request_id r

abbrev has_request : ℤ → List ℤ → Bool
has_request r [] = false
has_request r (q ∷ qs) = eqℤ q r || has_request r qs

-- The requests of the candidates, each once.
unfoldable pub requests_from : List ℤ → List Candidate → List ℤ
requests_from seen [] = seen
requests_from seen (k ∷ ks) =
    requests_from (if has_request k.request_id seen then seen else seen ++ (k.request_id ∷ [])) ks

unfoldable pub bytes_of_request : ℤ → ℕ → List Candidate → ℕ
bytes_of_request r total [] = total
bytes_of_request r total (k ∷ ks) =
    bytes_of_request r (if of_request r k then add64 total k.bytes else total) ks

-- How many requests are admitted under Concentrate, counted from the bytes of the first.
abbrev pub concentrated : ℕ → List ℤ → List Candidate → ℕ
concentrated budget [] ks = 0
concentrated budget (r ∷ rs) ks =
    let per_request = bytes_of_request r 0 ks in
    let holds = budget / per_request in
    if per_request == 0
    then length (r ∷ rs)
    else min (if holds == 0 then 1 else holds) (length (r ∷ rs))

unfoldable pub admitted_requests : ShareRule → ℕ → List ℤ → List Candidate → ℕ
admitted_requests ShareRule.even budget rs ks = length rs
admitted_requests ShareRule.priority budget rs ks = length rs
admitted_requests ShareRule.concentrate budget rs ks = concentrated budget rs ks

unfoldable pub share_of : ℕ → List ℤ → ℕ → ℕ
share_of budget [] admitted = budget
share_of budget (r ∷ rs) admitted = budget / max admitted 1

-- The state of the loops: the plan, the candidates emitted, the declines, and what one request has left.
pub record Sharing (W : Type 0) : Type 0 where
  pub plan : TransitPlan W
  pub emitted : List Candidate
  pub declined : List TransitDecline
  pub remaining : ℕ

abbrev decline_every : List Candidate → List TransitDecline
decline_every [] = []
decline_every (k ∷ ks) = decline_of k budget_exhausted ∷ decline_every ks

module _ {W : Type 0} ⦃d : Double W⦄ where
  abbrev pub rule : TransitPlannerConfig W → ShareRule
  rule c = if d.lt nought c.role_floor_share then ShareRule.even else ShareRule.concentrate

  unfoldable pub share_step : TransitPlannerConfig W → Candidate → Sharing W → Sharing W
  share_step c k s =
      let granted = min s.remaining k.bytes in
      let hit_share = if k.bytes == 0 then nought else ratio granted k.bytes in
      if granted == 0 || d.lt (d.mul c.hit_ratio hit_share) c.min_hit_ratio
      then record s { declined = s.declined ++ (decline_of k budget_exhausted ∷ []) }
      else record s {
        plan = emit_persist k granted c.hit_ratio false s.plan;
        emitted = s.emitted ++ (k ∷ []);
        remaining = s.remaining - granted;
      }

  unfoldable pub share_all : TransitPlannerConfig W → List Candidate → Sharing W → Sharing W
  share_all c [] s = s
  share_all c (k ∷ ks) s = share_all c ks (share_step c k s)

  -- The loop over the requests: the first `admitted` of them start with their share, the others with nothing.
  unfoldable pub share_requests :
      TransitPlannerConfig W → List ℤ → ℕ → ℕ → List Candidate → Sharing W → Sharing W
  share_requests c [] admitted share ks s = s
  share_requests c (r ∷ rs) admitted share ks s =
      let start : Sharing W = record s { remaining = if admitted == 0 then 0 else share } in
      share_requests c rs (admitted - 1) share ks
        (share_all c (sort (scores_above W) (filterb (of_request r) ks)) start)

  pub concurrency_plan_for :
      TransitPlannerConfig W
      → DeviceProfile
      → RuntimeState
      → Registry
      → TransitGraph
      → TransitPlan W
  concurrency_plan_for c device runtime r g =
      let start : TransitPlan W = record no_plan { planner_name = "concurrency" } in
      let (candidates, declined) = build_candidates c.reuse_metric c.persist_roles r g in
      let budget = resolve_budget c device runtime in
      let requests = sort ltℤ (requests_from [] candidates) in
      let admitted = admitted_requests (rule c) budget requests candidates in
      let shared =
        share_requests c requests admitted (share_of budget requests admitted) candidates
          (record { plan = start; emitted = []; declined = declined; remaining = 0 }) in
      let fetching = emit_prefetch c device g shared.emitted shared.plan in
      if budget == 0 || length candidates == 0
      then finish_plan c device g budget (declined ++ decline_every candidates) c.persist_roles
          (emit_stream_hints c r g budget start)
      else finish_plan c device g budget shared.declined c.persist_roles
          (emit_stream_hints c r g budget fetching)

  pub build_concurrency_plan : TransitPlannerConfig W → PlanInput → TransitPlan W
  build_concurrency_plan c input = elim input.graph [
    | none ↦ record no_plan { planner_name = "concurrency" }
    | some g ↦ elim input.registry [
      | none ↦ record no_plan { planner_name = "concurrency" }
      | some r ↦ concurrency_plan_for c input.device input.runtime r g
    ]
  ]
