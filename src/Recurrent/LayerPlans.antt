-- ===== src/Recurrent/LayerPlans.antt =====
-- `LocalityPlanner::plan_for_layer` of src/recurrent_planner.cpp in both forms, with the body they share.
pub mod Rationed
pub mod Bounds
use recurlocal.Base.{
  ℕ, zero, suc, ◌+◌, ◌/◌, ◌%◌, Bool, true, false, not, ◌&&◌, ◌||◌, ◌==◌, ltb, if◌then◌else◌, min,
  max,
}
use recurlocal.Base.Int.{ℤ, pos, negsuc, ltℤ, pos_part}
use recurlocal.Double.{Double, of_nat, to_nat, nought, unit}
use recurlocal.Recurrent.{
  PlannerConfig, DeviceCaps, LocalityPlanner, RecurrentGeometry, LayerPlan, HotSetPolicy,
  LocalityMode, HotSetModel, PreTouchStrategy, valid, current_layer, token_footprint, reuse_window,
  cliff, quota, proportional, scalar, baseline, persist, prefetch, combined,
}
use recurlocal.Recurrent.Saturating.{
  saturating_add, saturating_mul, token_footprint_bytes, sequences_of,
}
use recurlocal.Recurrent.Budget.{effective_l2_budget}
use recurlocal.Recurrent.Layers.{scheduled_distance, does_prefetch}
use recurlocal.Recurrent.Quota.{quota_period, admits}

abbrev pub does_persist : LocalityMode → Bool
does_persist baseline = false
does_persist persist = true
does_persist prefetch = false
does_persist combined = true

-- Bytes that compete with the window are added to it; a whole live set already counts it.
abbrev pub hot_with : Bool → ℕ → ℕ → ℕ
hot_with additive hot window = if additive then saturating_add hot window else max hot window

-- Every recurrent layer of every sequence.
abbrev all_states : RecurrentGeometry → ℕ
all_states g =
    saturating_mul (saturating_mul g.bytes_per_layer (pos_part g.recurrent_layers)) (sequences_of g)

-- The live set that the model counts for a valid geometry.
abbrev pub live_set : HotSetModel → RecurrentGeometry → ℕ
live_set current_layer g = 0
live_set token_footprint g = all_states g
live_set reuse_window g = saturating_add (all_states g) g.streamed_bytes_per_token

abbrev pub is_additive : HotSetModel → Bool
is_additive current_layer = true
is_additive token_footprint = false
is_additive reuse_window = false

module _ {W : Type 0} where
  abbrev pub applied_model : PlannerConfig W → RecurrentGeometry → HotSetModel
  applied_model c g = if valid g then c.hot_set_model else current_layer

  abbrev pub window_bytes : LocalityPlanner W → ℕ → ℕ
  window_bytes p bytes =
      let window = min bytes p.caps.access_policy_max_window_bytes in
      if p.config.max_hot_window_bytes == 0
      then window
      else min window p.config.max_hot_window_bytes

  -- The guard of the persisting part, for the bytes of the state and the budget.
  abbrev pub wants_window : LocalityPlanner W → ℕ → ℕ → Bool
  wants_window p bytes budget =
      does_persist p.config.mode
      && not (bytes == 0)
      && not (p.caps.access_policy_max_window_bytes == 0)
      && not (budget == 0)

module _ {W : Type 0} ⦃d : Double W⦄ where
  -- `std::clamp`.
  abbrev clamp : W → W → W → W
  clamp x lo hi = if d.lt x lo then lo else if d.lt hi x then hi else x

  abbrev lesser : W → W → W
  lesser x y = if d.lt y x then y else x

  -- A plan without a window.
  abbrev pub declined : LayerPlan W → LayerPlan W
  declined l = record l { use_persisting_window = false; hot_window_bytes = 0; hit_ratio = nought }

  -- `HotSetPolicy::Quota` for an ordinal of a period.
  abbrev pub rationed : LayerPlan W → ℕ → ℕ → ℕ → ℕ → LayerPlan W
  rationed l window budget period i =
      if admits period (min period (budget / window)) (i % period)
      then record l { hit_ratio_reduced = false }
      else record (declined l) { hit_ratio_reduced = true }

  abbrev pub quota_for : LayerPlan W → ℕ → ℕ → ℕ → ℤ → LayerPlan W
  quota_for l window budget period (negsuc i) = record l { hot_set_policy = HotSetPolicy.fixed }
  quota_for l window budget period (pos i) =
      if period == 0
      then record l { hot_set_policy = HotSetPolicy.fixed }
      else rationed l window budget period i

  -- The ratio that Proportional and Sqrt ask for, given the scaled one.
  abbrev floor_ratio : PlannerConfig W → W
  floor_ratio c = lesser c.min_hit_ratio c.hit_ratio

  abbrev proportional_ratio : PlannerConfig W → ℕ → ℕ → W → W
  proportional_ratio c window budget share =
      let budget_ratio : W =
        if window == 0 then nought else d.div (of_nat budget) (of_nat window) in
      let clamped = clamp (d.mul c.hit_ratio share) (floor_ratio c) c.hit_ratio in
      if d.lt budget_ratio clamped then budget_ratio else clamped

  abbrev with_ratio : LayerPlan W → PlannerConfig W → W → LayerPlan W
  with_ratio l c ratio = record l { hit_ratio = ratio; hit_ratio_reduced = d.lt ratio c.hit_ratio }

  -- The answer of a policy to a hot set above the budget.
  unfoldable pub answer_of :
      HotSetPolicy → PlannerConfig W → LayerPlan W → ℕ → ℕ → ℕ → ℤ → ℕ → LayerPlan W
  answer_of HotSetPolicy.fixed c l window hot budget layer_index ordinal_period = l
  answer_of proportional c l window hot budget layer_index ordinal_period =
      with_ratio l c (proportional_ratio c window budget (d.div (of_nat budget) (of_nat hot)))
  answer_of HotSetPolicy.sqrt c l window hot budget layer_index ordinal_period =
      let share = d.div (of_nat budget) (of_nat hot) in
      with_ratio l c (clamp (d.mul c.hit_ratio (d.sqrt share)) (floor_ratio c) c.hit_ratio)
  answer_of cliff c l window hot budget layer_index ordinal_period = record (declined l) {
    hit_ratio_reduced = true;
  }
  answer_of quota c l window hot budget layer_index ordinal_period =
      quota_for l window budget (quota_period ordinal_period hot window) layer_index

  abbrev pub back_off : PlannerConfig W → LayerPlan W → ℕ → ℕ → ℕ → ℤ → ℕ → LayerPlan W
  back_off c = answer_of c.hot_set_policy c

  -- The plan before any window: what was configured, and the accounting.
  abbrev pub accounted : LocalityPlanner W → ℕ → ℕ → Bool → LayerPlan W
  accounted p bytes hot_bytes additive =
      let budget = effective_l2_budget p in
      let hot = hot_with additive hot_bytes bytes in
      record {
        hot_window_bytes = 0;
        hit_ratio = nought;
        use_persisting_window = false;
        prefetch_next = false;
        prefetch_distance = pos 0;
        pre_touch = scalar;
        hot_set_oversubscribed = ltb budget hot;
        hit_ratio_reduced = false;
        hot_set_bytes = hot;
        hot_set_budget_bytes = budget;
        hot_set_model = current_layer;
        hot_set_policy = p.config.hot_set_policy;
        window_scope = p.config.window_scope;
        window_target = p.config.window_target;
        pre_touch_coverage = p.config.pre_touch_coverage;
      }

  -- The persisting part, once the guard holds.
  unfoldable pub with_window : LocalityPlanner W → LayerPlan W → ℕ → ℕ → Bool → ℤ → ℕ → LayerPlan W
  with_window p l bytes hot_bytes additive layer_index ordinal_period =
      let budget = effective_l2_budget p in
      let window = window_bytes p bytes in
      let hot = hot_with additive hot_bytes window in
      let asked : LayerPlan W = record l {
        hot_window_bytes = window;
        use_persisting_window = ltb 0 window;
        hit_ratio = p.config.hit_ratio;
        hot_set_bytes = hot;
        hot_set_oversubscribed = ltb budget hot;
      } in
      if ltb budget hot
      then back_off p.config asked window hot budget layer_index ordinal_period
      else asked

  unfoldable pub with_prefetch : LocalityPlanner W → LayerPlan W → Bool → ℤ → LayerPlan W
  with_prefetch p l has_next layer_index =
      let distance =
        scheduled_distance p.config.prefetch_schedule p.config.prefetch_distance layer_index in
      if does_prefetch p.config.mode && ltℤ (pos 0) distance && has_next
      then record l {
        prefetch_next = true;
        prefetch_distance = distance;
        pre_touch = p.config.pre_touch;
      }
      else record l { prefetch_next = false }

  unfoldable pub plan_for_layer_impl : LocalityPlanner W → ℕ → Bool → ℕ → Bool → ℤ → ℕ → LayerPlan W
  plan_for_layer_impl p bytes has_next hot_bytes additive layer_index ordinal_period =
      let start = accounted p bytes hot_bytes additive in
      let windowed = with_window p start bytes hot_bytes additive layer_index ordinal_period in
      with_prefetch p (if wants_window p bytes (effective_l2_budget p) then windowed else start)
        has_next layer_index

  -- The form that takes the competing bytes.
  abbrev pub plan_for_layer_legacy : LocalityPlanner W → ℕ → Bool → ℕ → ℤ → LayerPlan W
  plan_for_layer_legacy p bytes has_next hot layer_index =
      plan_for_layer_impl p bytes has_next hot true layer_index 0

  -- The form that takes the geometry.
  unfoldable pub plan_for_layer : LocalityPlanner W → ℕ → Bool → RecurrentGeometry → ℤ → LayerPlan W
  plan_for_layer p bytes has_next g layer_index =
      let applied = applied_model p.config g in
      let plan =
        plan_for_layer_impl p bytes has_next (live_set applied g) (is_additive applied) layer_index
          (pos_part g.recurrent_layers) in
      record plan { hot_set_model = applied }
