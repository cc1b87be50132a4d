-- ===== src/Planner/Windows.antt =====
-- `window_score` and `cap_windows_per_kernel` of planners/common.cpp.
pub mod Cap
use recurlocal.Base.{
  ◌^◌, map, ℕ, zero, suc, Bool, true, false, not, ◌&&◌, ◌||◌, ◌==◌, leb, List, [], ◌∷◌, ◌++◌,
  Option, none, some, if◌then◌else◌, length, any, drop, filterb, get_elem?,
}
use recurlocal.Base.Int.{ℤ, pos, negsuc}
use recurlocal.Base.Sort.{sort, contains}
use recurlocal.Double.{Double, of_nat, nought}
use recurlocal.Graph.{TransitGraph, TensorProfile, find_profile, no_next_use}
use recurlocal.Plan.{
  TransitPlan, TransitAction, TransitDecline, TransitActionKind, persist, stream, clear_policy,
  is_kind, not_supported,
}
use recurlocal.Planner.{
  TransitPlannerConfig, WindowPreference, densest, widest, narrowest, soonest_reuse,
}

-- A tensor and a kernel.
abbrev pub Binding : Type 0
Binding = ℕ × ℕ

abbrev pub is_in : Binding → List Binding → Bool
is_in (t, k) bs = any (λ b. b.0 == t && b.1 == k) bs

module _ {W : Type 0} where
  abbrev pub windowed : TransitAction W → Bool
  windowed a = is_kind a.kind persist || is_kind a.kind stream

  -- The kernels that carry a window, in the order they are met.
  abbrev pub kernels_of : List ℕ → List (TransitAction W) → List ℕ
  kernels_of seen [] = seen
  kernels_of seen (a ∷ acts) =
      kernels_of
        (if windowed a && not (contains a.before_kernel seen)
          then seen ++ (a.before_kernel ∷ [])
          else seen)
        acts

  abbrev pub windows_at : ℕ → List (TransitAction W) → List (TransitAction W)
  windows_at kernel acts = filterb (λ a. windowed a && a.before_kernel == kernel) acts

  -- The bindings that lose at a kernel: those ranked from `limit` on.
  abbrev pub lost_at :
      (TransitAction W → TransitAction W → Bool) → ℕ → List (TransitAction W) → ℕ → List Binding
  lost_at better limit acts kernel =
      let here = windows_at kernel acts in
      if leb (length here) limit
      then []
      else map (λ a. (a.tensor, kernel)) (drop limit (sort better here))

  abbrev pub dropped_from :
      (TransitAction W → TransitAction W → Bool)
      → ℕ
      → List (TransitAction W)
      → List ℕ
      → List Binding
  dropped_from better limit acts [] = []
  dropped_from better limit acts (kernel ∷ kernels) =
      lost_at better limit acts kernel ++ dropped_from better limit acts kernels

  abbrev pub survivors_from : List Binding → List ℕ → List (TransitAction W) → List ℕ
  survivors_from dropped seen [] = seen
  survivors_from dropped seen (a ∷ acts) =
      let kept = windowed a && not (is_in (a.tensor, a.before_kernel) dropped) in
      survivors_from dropped
        (if kept && not (contains a.tensor seen) then seen ++ (a.tensor ∷ []) else seen) acts

  -- Whether the plan loses the action.
  pub is_lost : List Binding → List ℕ → TransitAction W → Bool
  is_lost dropped survivors a =
      let is_clear = is_kind a.kind clear_policy in
      let kernel = if windowed a then a.before_kernel else a.after_kernel in
      let here = is_in (a.tensor, kernel) dropped in
      ((windowed a || is_clear) && here)
      || (is_clear
          && not (contains a.tensor survivors)
          && not here
          && any (λ b. b.0 == a.tensor) dropped)

  abbrev window_decline : TransitAction W → TransitDecline
  window_decline a = record {
    tensor = a.tensor;
    role = a.role;
    reason = not_supported;
    bytes = a.bytes;
    forgone_saved_bytes = a.expected_saved_bytes;
  }

  -- The actions kept, and a decline for each tensor that is lost altogether.
  pub keep_from :
      List Binding
      → List ℕ
      → List ℕ
      → List (TransitAction W)
      → List (TransitAction W) × List TransitDecline
  keep_from dropped survivors told [] = ([], [])
  keep_from dropped survivors told (a ∷ acts) =
      let tell = windowed a && not (contains a.tensor survivors) && not (contains a.tensor told) in
      let (kept, declined) =
        keep_from dropped survivors
          (if is_lost dropped survivors a && tell then told ++ (a.tensor ∷ []) else told) acts in
      if is_lost dropped survivors a
      then (kept, if tell then window_decline a ∷ declined else declined)
      else (a ∷ kept, declined)

  pub cap_windows : (TransitAction W → TransitAction W → Bool) → ℕ → TransitPlan W → TransitPlan W
  cap_windows better limit p =
      let dropped = dropped_from better limit p.actions (kernels_of [] p.actions) in
      let survivors = survivors_from dropped [] p.actions in
      let (kept, declined) = keep_from dropped survivors [] p.actions in
      if length dropped == 0
      then p
      else record p { actions = kept; declines = p.declines ++ declined }

module _ {W : Type 0} ⦃d : Double W⦄ where
  -- `window_score`.
  pub window_score : TransitGraph → WindowPreference → TransitAction W → W
  window_score g preference a = elim preference [
    | widest ↦ of_nat a.bytes
    | narrowest ↦ if a.bytes == 0 then nought else d.neg (of_nat a.bytes)
    | soonest_reuse ↦ elim (find_profile a.tensor g.profiles) [
      | none ↦ d.neg (d.literal (10 ^ 300) 0)
      | some p ↦
          if p.min_reuse_bytes == no_next_use
          then d.neg (d.literal (10 ^ 300) 0)
          else d.neg (of_nat p.min_reuse_bytes)
    ]
    | densest ↦
        if a.bytes == 0 then nought else d.div (of_nat a.expected_saved_bytes) (of_nat a.bytes)
  ]

  -- `cap_windows_per_kernel`.
  pub cap_windows_per_kernel : TransitPlannerConfig W → TransitGraph → TransitPlan W → TransitPlan W
  cap_windows_per_kernel c g p = elim c.max_windows_per_kernel [
    | negsuc n ↦ p
    | pos zero ↦ p
    | pos (suc limit) ↦
        let score = window_score g c.window_preference in
        cap_windows (λ l r. d.lt (score r) (score l)) (suc limit) p
  ]
