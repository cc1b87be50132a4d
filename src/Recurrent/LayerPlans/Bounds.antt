-- ===== src/Recurrent/LayerPlans/Bounds.antt =====
-- Limits of the window that a layer plan asks for.
use recurlocal.Base.{
  ◌==◌, ℕ, zero, suc, ◌≤◌, ◌≡◌, ◌⊎◌, inl, inr, refl, Bool, true, false, ltb, if◌then◌else◌, arith,
  Bool-cases,
}
use recurlocal.Base.Int.{ℤ, pos, negsuc}
use recurlocal.Double.{Double}
use recurlocal.Recurrent.{
  LocalityPlanner, LayerPlan, PlannerConfig, RecurrentGeometry, HotSetPolicy, proportional, cliff,
  quota,
}
use recurlocal.Recurrent.Quota.{quota_period}
use recurlocal.Recurrent.Budget.{effective_l2_budget}
use recurlocal.Recurrent.LayerPlans.{
  plan_for_layer, plan_for_layer_impl, with_prefetch, with_window, answer_of, window_bytes,
  wants_window, quota_for, hot_with,
}

used_or_none : (n : ℕ) → (ltb 0 n ≡ true) ⊎ (n ≡ 0)
used_or_none n = elim (Bool-cases (ltb 0 n)) [
  | inl used ↦ inl used
  | inr unused ↦ inr (ground arith)
]

module _ {W : Type 0} ⦃d : Double W⦄ where
  -- At most the given window, and none when the plan uses none.
  abbrev IsWithin : ℕ → LayerPlan W → Type 0
  IsWithin n l =
      (l.hot_window_bytes ≤ n) × ((l.use_persisting_window ≡ true) ⊎ (l.hot_window_bytes ≡ 0))

  quota_for-IsWithin :
      (l : LayerPlan W) (n window budget period : ℕ) (i : ℤ)
      → IsWithin n l
      → IsWithin n (quota_for l window budget period i)
  quota_for-IsWithin l n window budget period (negsuc i) h = h
  quota_for-IsWithin l n window budget zero (pos i) h = h
  quota_for-IsWithin l n window budget (suc m) (pos i) h = ground (arith, h)

  answer_of-IsWithin :
      (q : HotSetPolicy) (c : PlannerConfig W) (l : LayerPlan W) (n window hot budget : ℕ) (i : ℤ)
      (period : ℕ)
      → IsWithin n l
      → IsWithin n (answer_of q c l window hot budget i period)
  unfolding answer_of
  answer_of-IsWithin HotSetPolicy.fixed c l n window hot budget i period h = h
  answer_of-IsWithin proportional c l n window hot budget i period h = h
  answer_of-IsWithin HotSetPolicy.sqrt c l n window hot budget i period h = h
  answer_of-IsWithin cliff c l n window hot budget i period h = (omega arith, inr refl)
  answer_of-IsWithin quota c l n window hot budget i period h =
      quota_for-IsWithin l n window budget (quota_period period hot window) i h

  either-IsWithin :
      (n : ℕ) (b : Bool) (l m : LayerPlan W)
      → IsWithin n l
      → IsWithin n m
      → IsWithin n (if b then l else m)
  either-IsWithin n true l m h k = h
  either-IsWithin n false l m h k = k

  with_window-IsWithin :
      (p : LocalityPlanner W) (l : LayerPlan W) (bytes hot : ℕ) (additive : Bool) (i : ℤ)
      (period : ℕ)
      → IsWithin (window_bytes p bytes) (with_window p l bytes hot additive i period)
  unfolding with_window
  with_window-IsWithin p l bytes hot additive i period =
      let window = window_bytes p bytes in
      either-IsWithin window (ltb (effective_l2_budget p) (hot_with additive hot window)) _ _
        (answer_of-IsWithin p.config.hot_set_policy p.config _ window window _ _ i period
          (omega arith, used_or_none window))
        (omega arith, used_or_none window)

  with_prefetch-IsWithin :
      (p : LocalityPlanner W) (l : LayerPlan W) (n : ℕ) (has_next : Bool) (i : ℤ)
      → IsWithin n l
      → IsWithin n (with_prefetch p l has_next i)
  unfolding with_prefetch
  with_prefetch-IsWithin p l n has_next i h = ground (arith, h)

  plan-IsWithin :
      (p : LocalityPlanner W) (bytes : ℕ) (has_next : Bool) (g : RecurrentGeometry) (i : ℤ)
      → IsWithin (window_bytes p bytes) (plan_for_layer p bytes has_next g i)
  unfolding plan_for_layer plan_for_layer_impl
  plan-IsWithin p bytes has_next g i =
      with_prefetch-IsWithin p _ (window_bytes p bytes) has_next i (
        either-IsWithin (window_bytes p bytes) (wants_window p bytes (effective_l2_budget p)) _ _
          (with_window-IsWithin p _ bytes _ _ i _) (omega arith, inr refl))

  configured :
      (p : LocalityPlanner W) (bytes : ℕ) {n : ℕ}
      → n ≤ window_bytes p bytes
      → (p.config.max_hot_window_bytes ≡ 0) ⊎ (n ≤ p.config.max_hot_window_bytes)
  configured p bytes h = elim (Bool-cases (p.config.max_hot_window_bytes == 0)) [
    | inl unset ↦ inl (ground arith)
    | inr limit ↦ inr (ground (arith, limit, h))
  ]

-- The window of a layer plan is at most the state, the largest window of the device and a configured limit, and it is empty when the plan uses none.
pub plan_for_layer-window :
    (W : Type 0) ⦃d : Double W⦄ (p : LocalityPlanner W) (bytes : ℕ) (has_next : Bool)
    (g : RecurrentGeometry) (i : ℤ)
    → ((plan_for_layer p bytes has_next g i).hot_window_bytes ≤ bytes)
      × ((plan_for_layer p bytes has_next g i).hot_window_bytes
          ≤ p.caps.access_policy_max_window_bytes)
      × ((p.config.max_hot_window_bytes ≡ 0)
          ⊎ ((plan_for_layer p bytes has_next g i).hot_window_bytes
              ≤ p.config.max_hot_window_bytes))
      × (((plan_for_layer p bytes has_next g i).use_persisting_window ≡ true)
          ⊎ ((plan_for_layer p bytes has_next g i).hot_window_bytes ≡ 0))
plan_for_layer-window W p bytes has_next g i =
    let (bound, used) = plan-IsWithin p bytes has_next g i in
    (ground (arith, bound), ground (arith, bound), configured p bytes bound, used)
