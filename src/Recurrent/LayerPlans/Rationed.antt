-- ===== src/Recurrent/LayerPlans/Rationed.antt =====
-- The windows of one token under `HotSetPolicy::Quota` stay within the budget.
use recurlocal.Base.{
  ℕ, zero, suc, ◌+◌, ◌*◌, ◌/◌, ◌%◌, ◌^◌, ◌≤◌, ◌<◌, ◌≡◌, ◌∙◌, refl, ap, sym, subst, Bool, true,
  false, ltb, if◌then◌else◌, min, arith, Bool-cases, inl, inr,
}
use native.Mathlib.Nat.{mod-eq_of_lt, mul-div-le, mul-le-mul_left}
use recurlocal.Base.Int.{ℤ, pos, pos_part}
use recurlocal.Double.{Double}
use recurlocal.Recurrent.{RecurrentGeometry, LocalityPlanner, LayerPlan, quota}
use recurlocal.Recurrent.Budget.{effective_l2_budget}
use recurlocal.Recurrent.Quota.{admits, admitted_among, admitted_among-period, quota_period}
use recurlocal.Recurrent.LayerPlans.{
  plan_for_layer, applied_model, is_additive, live_set, quota_for, plan_for_layer_impl,
  with_prefetch, with_window, back_off, answer_of, window_bytes, wants_window, hot_with,
}

-- The window bytes that the plans of layers 0 to n - 1 ask for.
unfoldable pub windows_of :
    {W : Type 0} ⦃d : Double W⦄ → LocalityPlanner W → ℕ → Bool → RecurrentGeometry → ℕ → ℕ
windows_of p bytes has_next g zero = 0
windows_of p bytes has_next g (suc n) =
    windows_of p bytes has_next g n + (plan_for_layer p bytes has_next g (pos n)).hot_window_bytes

-- What competes for the set-aside with one window, under the model that applies.
abbrev pub hot_of : {W : Type 0} → LocalityPlanner W → ℕ → RecurrentGeometry → ℕ
hot_of p bytes g =
    let applied = applied_model p.config g in
    hot_with (is_additive applied) (live_set applied g) (window_bytes p bytes)

guarded_le : (b : Bool) (x : ℕ) → (if b then x else 0) ≤ x
guarded_le b x = ground arith

add_counted :
    (w c s x : ℕ) (b : Bool)
    → s ≤ w * c
    → x ≤ (if b then w else 0)
    → s + x ≤ w * (if b then suc c else c)
add_counted w c s x true h k = omega (arith, h, k)
add_counted w c s x false h k = omega (arith, h, k)

-- Windows that are at most as many as the budget holds.
spent_within : (w c p budget : ℕ) {s : ℕ} → s ≤ w * c → c ≡ min p (budget / w) → s ≤ budget
spent_within w c p budget h e =
    ground
      (arith, mul-div-le w budget, mul-le-mul_left {m = c} {n = budget / w} w (omega (arith, e)), h)

module _ {W : Type 0} ⦃d : Double W⦄ where
  prefetch_keeps_window :
      (p : LocalityPlanner W) (l : LayerPlan W) (has_next : Bool) (i : ℤ)
      → (with_prefetch p l has_next i).hot_window_bytes ≡ l.hot_window_bytes
  unfolding with_prefetch
  prefetch_keeps_window p l has_next i = ground arith

  rationed_window :
      (l : LayerPlan W) (window budget period i : ℕ)
      → 0 < period
      → (quota_for l window budget period (pos i)).hot_window_bytes ≡ (
          if admits period (min period (budget / window)) (i % period)
          then l.hot_window_bytes
          else 0)
  rationed_window l window budget period i positive =
      elim (Bool-cases (admits period (min period (budget / window)) (i % period))) [
        | inl admitted ↦ ground (arith, admitted)
        | inr refused ↦ ground (arith, refused)
      ]

  -- Under Quota the window is kept or given up, as the ordinal is admitted or not.
  quota_window :
      (p : LocalityPlanner W) (l : LayerPlan W) (window hot budget i period : ℕ)
      → p.config.hot_set_policy ≡ quota
      → l.hot_window_bytes ≡ window
      → 0 < period
      → i < period
      → (back_off p.config l window hot budget (pos i) period).hot_window_bytes
        ≡ (if admits period (min period (budget / window)) i then window else 0)
  unfolding answer_of
  quota_window p l window hot budget i period q e positive inside =
      let chosen : back_off p.config l window hot budget (pos i) period
          ≡ quota_for l window budget (quota_period period hot window) (pos i) =
        rw q in
      let declared : quota_period period hot window ≡ period = ground arith in
      let here : i % period ≡ i = mod-eq_of_lt inside in
      ap (λ (r : LayerPlan W). r.hot_window_bytes) chosen
      ∙ ap (λ n. (quota_for l window budget n (pos i)).hot_window_bytes) declared
      ∙ rationed_window l window budget period i positive
      ∙ rw (here, e)

  asked_window :
      (p : LocalityPlanner W) (l : LayerPlan W) (bytes hot : ℕ) (additive : Bool) (i period : ℕ)
      → p.config.hot_set_policy ≡ quota
      → 0 < period
      → i < period
      → effective_l2_budget p < hot_with additive hot (window_bytes p bytes)
      → (with_window p l bytes hot additive (pos i) period).hot_window_bytes ≡ (
          if admits period (min period (effective_l2_budget p / window_bytes p bytes)) i
          then window_bytes p bytes
          else 0)
  unfolding with_window
  asked_window p l bytes hot additive i period q positive inside over =
      let above : ltb (effective_l2_budget p) (hot_with additive hot (window_bytes p bytes))
          ≡ true =
        ground arith in
      rw above (quota_window p _ _ _ _ i period q refl positive inside)

  window_of_layer :
      (p : LocalityPlanner W) (bytes : ℕ) (has_next : Bool) (hot : ℕ) (additive : Bool)
      (period i : ℕ)
      → p.config.hot_set_policy ≡ quota
      → 0 < period
      → i < period
      → effective_l2_budget p < hot_with additive hot (window_bytes p bytes)
      → (plan_for_layer_impl p bytes has_next hot additive (pos i) period).hot_window_bytes ≡ (
          if wants_window p bytes (effective_l2_budget p)
          then (if admits period (min period (effective_l2_budget p / window_bytes p bytes)) i
              then window_bytes p bytes
              else 0)
          else 0)
  unfolding plan_for_layer_impl
  window_of_layer p bytes has_next hot additive period i q positive inside over =
      prefetch_keeps_window p _ has_next (pos i)
      ∙ (elim (Bool-cases (wants_window p bytes (effective_l2_budget p))) [
        | inl wanted ↦
            rw wanted (asked_window p _ bytes hot additive i period q positive inside over)
        | inr unwanted ↦ rw unwanted
      ])

  layer_at_most :
      (p : LocalityPlanner W) (bytes : ℕ) (has_next : Bool) (g : RecurrentGeometry) (period i : ℕ)
      → p.config.hot_set_policy ≡ quota
      → g.recurrent_layers ≡ pos period
      → i < period
      → effective_l2_budget p < hot_of p bytes g
      → (plan_for_layer p bytes has_next g (pos i)).hot_window_bytes ≤ (
          if admits period (min period (effective_l2_budget p / window_bytes p bytes)) i
          then window_bytes p bytes
          else 0)
  unfolding plan_for_layer
  layer_at_most p bytes has_next g period i q layers inside over =
      let applied = applied_model p.config g in
      let exact =
        window_of_layer p bytes has_next (live_set applied g) (is_additive applied) period i q
          (omega arith) inside over in
      let declared : pos_part g.recurrent_layers ≡ period = rw layers in
      let same =
        ap
          (λ n.
            (plan_for_layer_impl p bytes has_next (live_set applied g) (is_additive applied) (pos i)
              n).hot_window_bytes)
          declared in
      subst
        (λ n. n ≤ (
          if admits period (min period (effective_l2_budget p / window_bytes p bytes)) i
          then window_bytes p bytes
          else 0))
        (sym (same ∙ exact)) (guarded_le (wants_window p bytes (effective_l2_budget p)) _)

  windows_of-among :
      (p : LocalityPlanner W) (bytes : ℕ) (has_next : Bool) (g : RecurrentGeometry) (period n : ℕ)
      → p.config.hot_set_policy ≡ quota
      → g.recurrent_layers ≡ pos period
      → n ≤ period
      → effective_l2_budget p < hot_of p bytes g
      → windows_of p bytes has_next g n
        ≤ window_bytes p bytes
          * admitted_among period (min period (effective_l2_budget p / window_bytes p bytes)) n
  unfolding windows_of admitted_among
  windows_of-among p bytes has_next g period zero q layers inside over = omega arith
  windows_of-among p bytes has_next g period (suc n) q layers inside over =
      add_counted (window_bytes p bytes) _ _ _ (admits period _ n)
        (windows_of-among p bytes has_next g period n q layers (omega arith) over)
        (layer_at_most p bytes has_next g period n q layers inside over)

-- Under Quota the windows that the plans of all recurrent layers ask for fit into the budget together, when the hot set exceeds the budget and the geometry has at most 2 ^ 31 layers.
pub windows_of-budget :
    (W : Type 0) ⦃d : Double W⦄ (p : LocalityPlanner W) (bytes : ℕ) (has_next : Bool)
    (g : RecurrentGeometry) (period : ℕ)
    → p.config.hot_set_policy ≡ quota
    → g.recurrent_layers ≡ pos period
    → period ≤ 2 ^ 31
    → effective_l2_budget p < hot_of p bytes g
    → windows_of p bytes has_next g period ≤ effective_l2_budget p
windows_of-budget W p bytes has_next g period q layers small over =
    let window = window_bytes p bytes in
    let budget = effective_l2_budget p in
    let total = windows_of-among p bytes has_next g period period q layers (omega arith) over in
    let count = admitted_among-period period (min period (budget / window)) small (omega arith) in
    spent_within window (admitted_among period (min period (budget / window)) period) period budget
      total count
