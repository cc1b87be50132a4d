-- ===== src/Planner/Admit/Floor.antt =====
-- `admit_role_floor` of planners/budgeted/budgeted_planner.cpp: a floor for each role, then the rest
-- by density.
use recurlocal.Planner.Admit.{sort}
use recurlocal.Base.{
  ℕ, ◌-◌, Bool, true, false, ◌==◌, leb, List, [], ◌∷◌, ◌++◌, Option, none, some, if◌then◌else◌, min,
  get_elem?, length, set, any, filterb, add64,
}
use recurlocal.Double.{Double, of_nat, to_nat}
use recurlocal.Tensor.{TensorRole, role_eq}
use recurlocal.Plan.{TransitDecline, budget_exhausted}
use recurlocal.Planner.{TransitPlannerConfig}
use recurlocal.Planner.Candidates.{Candidate}
use recurlocal.Planner.Admit
use recurlocal.Planner.Admit.Survival.{all_false, decline_unset}

-- The grants, the candidates granted and the budget left.
pub record Floors (W : Type 0) : Type 0 where
  pub grants : List (Admit.Grant W)
  pub granted_flag : List Bool
  pub remaining : ℕ

-- The roles of the candidates, in the order they are met.
abbrev pub roles_from : List TensorRole → List Candidate → List TensorRole
roles_from seen [] = seen
roles_from seen (k ∷ ks) =
    roles_from (if any (λ r. role_eq r k.role) seen then seen else seen ++ (k.role ∷ [])) ks

abbrev has_role : List Candidate → TensorRole → ℕ → Bool
has_role cs role i = elim (get_elem? cs i) [ none ↦ false | some k ↦ role_eq k.role role ]

abbrev pub role_order : (W : Type 0) ⦃d : Double W⦄ → List Candidate → TensorRole → List ℕ
role_order W cs role =
    sort (Admit.less_at (Admit.by_density W) cs)
      (filterb (has_role cs role) (Admit.indices_from 0 (length cs)))

module _ {W : Type 0} ⦃d : Double W⦄ where
  abbrev give : ℕ → ℕ → W → Floors W → Floors W
  give i granted hit s = record {
    grants = s.grants ++ (record { index = i; bytes = granted; hit_ratio = hit } ∷ []);
    granted_flag = set s.granted_flag i true;
    remaining = s.remaining - granted;
  }

  -- The inner loop of the first phase, with what is left of the role's floor.
  unfoldable pub fill_role :
      TransitPlannerConfig W → List Candidate → List ℕ → ℕ → Floors W → Floors W
  fill_role c cs [] left s = s
  fill_role c cs (i ∷ order) left s = elim (get_elem? cs i) [
    | none ↦ fill_role c cs order left s
    | some k ↦
        let granted = min left k.bytes in
        let rest = fill_role c cs order (left - granted) (give i granted c.hit_ratio s) in
        if left == 0 then s else if granted == 0 then fill_role c cs order left s else rest
  ]

  unfoldable pub fill_roles :
      TransitPlannerConfig W → List Candidate → ℕ → List TensorRole → Floors W → Floors W
  unfolding fill_role
  fill_roles c cs floor [] s = s
  fill_roles c cs floor (role ∷ roles) s =
      fill_roles c cs floor roles (fill_role c cs (role_order W cs role) (min floor s.remaining) s)

  -- The bytes of the last grant for the candidate.
  abbrev pub already_from : ℕ → ℕ → List (Admit.Grant W) → ℕ
  already_from i already [] = already
  already_from i already (g ∷ gs) = already_from i (if g.index == i then g.bytes else already) gs

  -- Adds to the first grant for the candidate, if it has one.
  abbrev pub merge : ℕ → ℕ → List (Admit.Grant W) → Option (List (Admit.Grant W))
  merge i more [] = none
  merge i more (g ∷ gs) =
      if g.index == i
      then some (record g { bytes = add64 g.bytes more } ∷ gs)
      else elim (merge i more gs) [ none ↦ none | some hs ↦ some (g ∷ hs) ]

  pub top_up : TransitPlannerConfig W → ℕ → Candidate → Floors W → Floors W
  top_up c i k s =
      let already = already_from i 0 s.grants in
      let more = min s.remaining (k.bytes - already) in
      if s.remaining == 0
      then s
      else if leb k.bytes already
      then s
      else if more == 0
      then s
      else elim (merge i more s.grants) [
        | none ↦ give i more c.hit_ratio s
        | some grants ↦ record s { grants = grants; remaining = s.remaining - more }
      ]

  pub top_up_all : TransitPlannerConfig W → List Candidate → List ℕ → Floors W → Floors W
  top_up_all c cs [] s = s
  top_up_all c cs (i ∷ order) s =
      top_up_all c cs order (elim (get_elem? cs i) [ none ↦ s | some k ↦ top_up c i k s ])

  -- The floor of each role.
  abbrev pub floor_per_role : TransitPlannerConfig W → ℕ → List TensorRole → ℕ
  floor_per_role c budget roles =
      to_nat (d.div (d.mul (of_nat budget) c.role_floor_share) (of_nat (length roles)))

  pub admit_role_floor :
      TransitPlannerConfig W → List Candidate → ℕ → List TransitDecline → Admit.Filling W
  admit_role_floor c cs budget declined =
      let roles = roles_from [] cs in
      let s : Floors W = record { grants = []; granted_flag = all_false cs; remaining = budget } in
      let s = fill_roles c cs (floor_per_role c budget roles) roles s in
      let s = top_up_all c cs (Admit.order_by (Admit.by_density W) cs) s in
      let forgone = decline_unset (λ k. Admit.decline_of k budget_exhausted) cs s.granted_flag in
      if leb (length roles) 1
      then Admit.admit_ordered c (Admit.by_density W) cs budget declined
      else record { grants = s.grants; remaining = s.remaining; declined = declined ++ forgone }
