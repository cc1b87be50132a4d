-- ===== src/Planner/Admit.antt =====
-- The admission rules of planners/budgeted/budgeted_planner.cpp that go over the candidates once:
-- ordered, quota and proportional. A decline goes to the end of the list that the caller passes.
pub mod Decided
pub mod Budget
pub mod Survival
pub mod Floor
use recurlocal.Base.{
  ℕ, zero, suc, ◌+◌, ◌-◌, Bool, true, false, ◌==◌, ltb, leb, List, [], ◌∷◌, ◌++◌, Option, none,
  some, if◌then◌else◌, min, get_elem?, length, add64,
}
use recurlocal.Base.Sort.{sort}
use recurlocal.Double.{Double, of_nat, to_nat, unit}
use recurlocal.Plan.{TransitDecline, DeclineReason, budget_exhausted, below_min_hit_ratio}
use recurlocal.Planner.{TransitPlannerConfig}
use recurlocal.Planner.Candidates.{Candidate}
use recurlocal.Planner.Cost.{density, ratio}

-- One tensor's share of the budget.
pub record Grant (W : Type 0) : Type 0 where
  pub index : ℕ
  pub bytes : ℕ
  pub hit_ratio : W

-- What a rule has decided so far, and the budget it has left.
pub record Filling (W : Type 0) : Type 0 where
  pub grants : List (Grant W)
  pub remaining : ℕ
  pub declined : List TransitDecline

abbrev pub decline_of : Candidate → DeclineReason → TransitDecline
decline_of k reason = record {
  tensor = k.tensor;
  role = k.role;
  reason = reason;
  bytes = k.bytes;
  forgone_saved_bytes = k.saved_bytes;
}

abbrev pub decline_one : {W : Type 0} → Candidate → DeclineReason → Filling W → Filling W
decline_one k reason s = record s { declined = s.declined ++ (decline_of k reason ∷ []) }

-- `remaining -= granted`, where the rules never grant more than remains.
abbrev pub grant_one : {W : Type 0} → ℕ → ℕ → W → Filling W → Filling W
grant_one i granted hit s = record s {
  grants = s.grants ++ (record { index = i; bytes = granted; hit_ratio = hit } ∷ []);
  remaining = s.remaining - granted;
}

abbrev pub indices_from : ℕ → ℕ → List ℕ
indices_from i zero = []
indices_from i (suc n) = i ∷ indices_from (suc i) n

abbrev pub less_at : (Candidate → Candidate → Bool) → List Candidate → ℕ → ℕ → Bool
less_at less cs a b = elim (get_elem? cs a) [
  | none ↦ false
  | some x ↦ elim (get_elem? cs b) [ none ↦ false | some y ↦ less x y ]
]

-- The indices of the candidates, stably sorted.
abbrev pub order_by : (Candidate → Candidate → Bool) → List Candidate → List ℕ
order_by less cs = sort (less_at less cs) (indices_from 0 (length cs))

-- The loop over an order.
abbrev pub through :
    {W : Type 0}
    → (ℕ → Candidate → Filling W → Filling W)
    → List Candidate
    → List ℕ
    → Filling W
    → Filling W
through offer cs [] s = s
through offer cs (i ∷ order) s =
    through offer cs order (elim (get_elem? cs i) [ none ↦ s | some k ↦ offer i k s ])

abbrev pub begin : {W : Type 0} → ℕ → List TransitDecline → Filling W
begin budget declined = record { grants = []; remaining = budget; declined = declined }

-- `by_density` and `by_urgency`.
abbrev pub by_density : (W : Type 0) ⦃d : Double W⦄ → Candidate → Candidate → Bool
by_density W ⦃d⦄ a b = d.lt (density b) (density a)

abbrev pub by_urgency : Candidate → Candidate → Bool
by_urgency a b = ltb a.distance b.distance

abbrev pub wanted_from : ℕ → List Candidate → ℕ
wanted_from total [] = total
wanted_from total (k ∷ ks) = wanted_from (add64 total k.bytes) ks

module _ {W : Type 0} ⦃d : Double W⦄ where
  unfoldable pub offer_ordered : TransitPlannerConfig W → ℕ → Candidate → Filling W → Filling W
  offer_ordered c i k s =
      let granted = min s.remaining k.bytes in
      if granted == 0
      then decline_one k budget_exhausted s
      else if d.lt (d.mul c.hit_ratio (ratio granted k.bytes)) c.min_hit_ratio
      then decline_one k below_min_hit_ratio s
      else grant_one i granted c.hit_ratio s

  -- `admit_ordered`: sort, then fill.
  unfoldable pub admit_ordered :
      TransitPlannerConfig W
      → (Candidate → Candidate → Bool)
      → List Candidate
      → ℕ
      → List TransitDecline
      → Filling W
  admit_ordered c less cs budget declined =
      through (offer_ordered c) cs (order_by less cs) (begin budget declined)

  unfoldable pub offer_quota : TransitPlannerConfig W → ℕ → Candidate → Filling W → Filling W
  offer_quota c i k s =
      if ltb s.remaining k.bytes
      then decline_one k budget_exhausted s
      else grant_one i k.bytes c.hit_ratio s

  -- `admit_quota`: whole tensors only.
  unfoldable pub admit_quota :
      TransitPlannerConfig W → List Candidate → ℕ → List TransitDecline → Filling W
  admit_quota c cs budget declined =
      through (offer_quota c) cs (order_by (by_density W) cs) (begin budget declined)

  abbrev pub share_of : ℕ → ℕ → W
  share_of wanted budget = if leb wanted budget then unit else ratio budget wanted

  -- A grant of the proportional rule takes nothing off `remaining`, which the rule does not keep.
  pub offer_proportional : TransitPlannerConfig W → W → ℕ → Candidate → Filling W → Filling W
  offer_proportional c share i k s =
      let hit = d.mul c.hit_ratio share in
      let granted = to_nat (d.mul (of_nat k.bytes) share) in
      let bytes = if granted == 0 then 1 else granted in
      let grant : Grant W = record { index = i; bytes = bytes; hit_ratio = hit } in
      if d.lt hit c.min_hit_ratio
      then decline_one k below_min_hit_ratio s
      else record s { grants = s.grants ++ (grant ∷ []) }

  -- `admit_proportional`: everything, each scaled by the share.
  pub admit_proportional :
      TransitPlannerConfig W → List Candidate → ℕ → List TransitDecline → Filling W
  admit_proportional c cs budget declined =
      let wanted = wanted_from 0 cs in
      let offer = offer_proportional c (share_of wanted budget) in
      if wanted == 0
      then begin budget declined
      else through offer cs (indices_from 0 (length cs)) (begin budget declined)
