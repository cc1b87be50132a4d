-- ===== src/Planner/Admit/Survival.antt =====
-- `admit_survival` of planners/budgeted/budgeted_planner.cpp: greedy on the marginal saving, stopped
-- by the first admission that is not worth its cost.
use recurlocal.Base.{
  ℕ, ◌-◌, Bool, true, false, ◌==◌, List, [], ◌∷◌, ◌++◌, Option, none, some, if◌then◌else◌, min,
  get_elem?, set, add64,
}
use recurlocal.Double.{Double, of_nat, nought}
use recurlocal.Plan.{TransitDecline, budget_exhausted, below_min_hit_ratio}
use recurlocal.Planner.{TransitPlannerConfig}
use recurlocal.Planner.Candidates.{Candidate}
use recurlocal.Planner.Cost.{
  CostContext, ratio, resident_bytes, modelled_saving, reservation_cost_bytes,
}
use recurlocal.Planner.Admit

-- The state of the search.
pub record Search (W : Type 0) : Type 0 where
  pub context : CostContext W
  pub grants : List (Admit.Grant W)
  pub admitted : List Bool
  pub remaining : ℕ
  pub best_total : W

abbrev pub all_false : {A : Type 0} → List A → List Bool
all_false [] = []
all_false (x ∷ xs) = false ∷ all_false xs

-- A decline for each candidate whose flag is not set.
abbrev pub decline_unset :
    (Candidate → TransitDecline) → List Candidate → List Bool → List TransitDecline
decline_unset f [] flags = []
decline_unset f (k ∷ ks) [] = []
decline_unset f (k ∷ ks) (true ∷ flags) = decline_unset f ks flags
decline_unset f (k ∷ ks) (false ∷ flags) = f k ∷ decline_unset f ks flags

module _ {W : Type 0} ⦃d : Double W⦄ where
  abbrev total_saving : List Candidate → CostContext W → W → List (Admit.Grant W) → W
  total_saving cs x total [] = total
  total_saving cs x total (g ∷ gs) = elim (get_elem? cs g.index) [
    | none ↦ total_saving cs x total gs
    | some k ↦ total_saving cs x (d.add total (of_nat (modelled_saving k g.bytes g.hit_ratio x))) gs
  ]

  -- One candidate: the search with it, or `none` where the loop breaks.
  pub survival_step :
      TransitPlannerConfig W → List Candidate → ℕ → Candidate → Search W → Option (Search W)
  survival_step c cs i k s =
      let granted = min s.remaining k.bytes in
      let trial : List (Admit.Grant W) =
        s.grants ++ (record { index = i; bytes = granted; hit_ratio = c.hit_ratio } ∷ []) in
      let resident =
        add64 s.context.resident_bytes (resident_bytes granted k.bytes c.hit_ratio s.context) in
      let context : CostContext W = record s.context { resident_bytes = resident } in
      let total =
        d.sub (total_saving cs context nought trial) (of_nat (reservation_cost_bytes context)) in
      if granted == 0
      then none
      else if d.lt (d.mul c.hit_ratio (ratio granted k.bytes)) c.min_hit_ratio
      then some s
      else if d.le total s.best_total
      then none
      else some (record {
        context = context;
        grants = trial;
        admitted = set s.admitted i true;
        remaining = s.remaining - granted;
        best_total = total;
      })

  pub survival_search : TransitPlannerConfig W → List Candidate → List ℕ → Search W → Search W
  survival_search c cs [] s = s
  survival_search c cs (i ∷ order) s = elim (get_elem? cs i) [
    | none ↦ survival_search c cs order s
    | some k ↦ elim (survival_step c cs i k s) [ none ↦ s | some t ↦ survival_search c cs order t ]
  ]

  -- With the cost context of the empty plan.
  pub admit_survival :
      TransitPlannerConfig W
      → CostContext W
      → List Candidate
      → ℕ
      → List TransitDecline
      → Admit.Filling W
  admit_survival c context cs budget declined =
      let order = Admit.order_by (Admit.by_density W) cs in
      let s = survival_search c cs order (record {
        context = context;
        grants = [];
        admitted = all_false cs;
        remaining = budget;
        best_total = nought;
      }) in
      let reason = if s.remaining == 0 then budget_exhausted else below_min_hit_ratio in
      record {
        grants = s.grants;
        remaining = s.remaining;
        declined = declined ++ decline_unset (λ k. Admit.decline_of k reason) cs s.admitted;
      }
