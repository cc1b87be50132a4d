-- ===== src/Recurrent/Examples.antt =====
-- The recurrent planner on a small device, in fixed point.
use recurlocal.Base.{ℕ, ◌+◌, ◌-◌, ◌≤◌, ◌<◌, ◌≡◌, ◌↔◌, ◌⊎◌, refl, true, some, List, [], ◌∷◌, arith}
use recurlocal.Base.Int.{pos}
use recurlocal.Base.Names.{value}
use recurlocal.Double.{Fixed, fixed_double}
use recurlocal.Recurrent.{
  PlannerConfig, LocalityPlanner, RecurrentGeometry, StateSegment, LocalityMode, PreTouchStrategy,
  HotSetPolicy, HotSetModel, SetAsidePolicy, PrefetchSchedule, WindowScope, WindowTarget,
  PreTouchCoverage, PrefetchJoin, WindowAttach, StateKind,
}
use recurlocal.Recurrent.Saturating.{saturating_mul}
use recurlocal.Recurrent.Budget.{effective_l2_budget}
use recurlocal.Recurrent.Layers.{
  walk_ahead, scheduled_distance, recurrent_layer_ahead, recurrent_between, is_recurrent_layer,
  after_layer, recurrent_layer_ahead-some, recurrent_layer_ahead-none,
}
use recurlocal.Recurrent.Window.Best.{IsBest, select_window_segment-IsBest}
use recurlocal.Recurrent.Window.{
  best_of, resolve_window_region, resolve_window_region-inside, select_window_segment, slice_of,
}
use recurlocal.Recurrent.LayerPlans.{
  plan_for_layer, plan_for_layer_impl, with_prefetch, with_window, answer_of,
}
use recurlocal.Recurrent.Quota.{admits}
use recurlocal.Recurrent.LayerPlans.Rationed.{windows_of, windows_of-budget}
use recurlocal.Recurrent.LayerPlans.Bounds.{plan_for_layer-window}
use recurlocal.Recurrent.Names.{
  parse_mode, mode_to_string, parse_pre_touch_strategy, pre_touch_strategy_to_string,
  parse_set_aside_policy, set_aside_policy_to_string, parse_hot_set_policy,
  hot_set_policy_to_string, parse_prefetch_schedule, prefetch_schedule_to_string,
  parse_hot_set_model, hot_set_model_to_string, parse_window_scope, window_scope_to_string,
  parse_window_target, window_target_to_string, parse_window_attach, window_attach_to_string,
  parse_prefetch_join, prefetch_join_to_string, parse_pre_touch_coverage,
  pre_touch_coverage_to_string,
}
use recurlocal.Recurrent.Names.ReadBack.{parse-to_string_iff}

abbrev rationing : PlannerConfig Fixed
rationing = record {
  mode = LocalityMode.combined;
  persisting_budget_fraction = 7500;
  hit_ratio = 7000;
  prefetch_distance = pos 1;
  max_hot_window_bytes = 0;
  pre_touch = PreTouchStrategy.vec4;
  hot_set_policy = HotSetPolicy.quota;
  set_aside_policy = SetAsidePolicy.fixed;
  min_residency = 5000;
  prefetch_schedule = PrefetchSchedule.uniform;
  hot_set_model = HotSetModel.token_footprint;
  window_scope = WindowScope.layer;
  window_target = WindowTarget.matrix;
  pre_touch_coverage = PreTouchCoverage.matrix;
  prefetch_join = PrefetchJoin.per_layer;
  window_attach = WindowAttach.stream;
  min_hit_ratio = 500;
}

-- A budget of 250 bytes for four layers of 100 bytes: two of them get a window.
abbrev planner : LocalityPlanner Fixed
planner = record {
  caps = record {
    l2_bytes = 1000;
    persisting_l2_max_bytes = 600;
    access_policy_max_window_bytes = 300;
  };
  config = rationing;
  granted_l2_set_aside = 250;
}

abbrev geometry : RecurrentGeometry
geometry = record {
  recurrent_layers = pos 4;
  bytes_per_layer = 100;
  sequences = pos 1;
  streamed_bytes_per_token = 5000;
}

four_layers : windows_of planner 100 true geometry 4 ≡ 200
unfolding windows_of plan_for_layer plan_for_layer_impl with_prefetch scheduled_distance with_window
    saturating_mul answer_of admits
four_layers = refl

windows_of-budget_example : windows_of planner 100 true geometry 4 ≤ effective_l2_budget planner
unfolding saturating_mul
windows_of-budget_example =
    windows_of-budget Fixed planner 100 true geometry 4 refl refl (omega arith) (omega arith)

plan_for_layer-window_example :
    ((plan_for_layer planner 400 true geometry (pos 0)).hot_window_bytes ≤ 400)
    × ((plan_for_layer planner 400 true geometry (pos 0)).hot_window_bytes ≤ 300)
    × ((planner.config.max_hot_window_bytes ≡ 0)
        ⊎ ((plan_for_layer planner 400 true geometry (pos 0)).hot_window_bytes ≤ 0))
    × (((plan_for_layer planner 400 true geometry (pos 0)).use_persisting_window ≡ true)
        ⊎ ((plan_for_layer planner 400 true geometry (pos 0)).hot_window_bytes ≡ 0))
plan_for_layer-window_example = plan_for_layer-window Fixed planner 400 true geometry (pos 0)

abbrev matrix_state : StateSegment
matrix_state = record {
  ptr = 4196;
  bytes = 100;
  base = 4096;
  base_bytes = 400;
  kind = StateKind.matrix;
}

abbrev conv_state : StateSegment
conv_state = record { ptr = 9000; bytes = 20; base = 0; base_bytes = 0; kind = StateKind.conv }

abbrev states : List StateSegment
states = matrix_state ∷ conv_state ∷ []

-- Eight slices ahead end with the allocation.
resolve_window_region-inside_example :
    (resolve_window_region matrix_state WindowScope.ahead (pos 8) ≡ slice_of matrix_state)
    ⊎ ((4096 ≤ (resolve_window_region matrix_state WindowScope.ahead (pos 8)).ptr)
        × ((resolve_window_region matrix_state WindowScope.ahead (pos 8)).ptr
              + (resolve_window_region matrix_state WindowScope.ahead (pos 8)).bytes
            ≤ 4096 + 400))
resolve_window_region-inside_example =
    resolve_window_region-inside matrix_state WindowScope.ahead (pos 8)

select_window_segment-IsBest_example :
    IsBest (λ a b. a ≤ b) states (select_window_segment states WindowTarget.widest)
    × IsBest (λ a b. b ≤ a) states (select_window_segment states WindowTarget.narrowest)
select_window_segment-IsBest_example = select_window_segment-IsBest states

-- The matrix state is the widest, and the conv state the narrowest.
widest_state : select_window_segment states WindowTarget.widest ≡ some matrix_state
unfolding select_window_segment best_of
widest_state = refl

narrowest_state : select_window_segment states WindowTarget.narrowest ≡ some conv_state
unfolding select_window_segment best_of
narrowest_state = refl

-- Every fourth layer is full attention: the second recurrent layer after layer 1 is layer 4.
recurrent_layer_ahead-some_example :
    (n : ℕ) × (4 ≡ after_layer (pos 1) + n)
    × (4 < 8)
    × (is_recurrent_layer (pos 4) (pos 4) ≡ true)
    × (recurrent_between n (after_layer (pos 1)) (pos 4) + 1 ≡ 2)
unfolding recurrent_layer_ahead walk_ahead
recurrent_layer_ahead-some_example = recurrent_layer_ahead-some (pos 1) 2 (pos 8) (pos 4) 4 refl

recurrent_layer_ahead-none_example :
    recurrent_between (8 - after_layer (pos 5)) (after_layer (pos 5)) (pos 4) < 2
unfolding recurrent_layer_ahead walk_ahead
recurrent_layer_ahead-none_example =
    recurrent_layer_ahead-none (pos 5) 2 (pos 8) (pos 4) (omega arith) refl

-- The text "conv" names a window target and a coverage.
parse-to_string_iff_example :
    ((parse_mode (some "conv") ≡ value LocalityMode.prefetch)
      ↔ (mode_to_string LocalityMode.prefetch ≡ "conv"))
    × ((parse_pre_touch_strategy (some "conv") ≡ value PreTouchStrategy.vec4)
        ↔ (pre_touch_strategy_to_string PreTouchStrategy.vec4 ≡ "conv"))
    × ((parse_set_aside_policy (some "conv") ≡ value SetAsidePolicy.residency)
        ↔ (set_aside_policy_to_string SetAsidePolicy.residency ≡ "conv"))
    × ((parse_hot_set_policy (some "conv") ≡ value HotSetPolicy.quota)
        ↔ (hot_set_policy_to_string HotSetPolicy.quota ≡ "conv"))
    × ((parse_prefetch_schedule (some "conv") ≡ value PrefetchSchedule.ramp)
        ↔ (prefetch_schedule_to_string PrefetchSchedule.ramp ≡ "conv"))
    × ((parse_hot_set_model (some "conv") ≡ value HotSetModel.reuse_window)
        ↔ (hot_set_model_to_string HotSetModel.reuse_window ≡ "conv"))
    × ((parse_window_scope (some "conv") ≡ value WindowScope.ahead)
        ↔ (window_scope_to_string WindowScope.ahead ≡ "conv"))
    × ((parse_window_target (some "conv") ≡ value WindowTarget.conv)
        ↔ (window_target_to_string WindowTarget.conv ≡ "conv"))
    × ((parse_window_attach (some "conv") ≡ value WindowAttach.stream)
        ↔ (window_attach_to_string WindowAttach.stream ≡ "conv"))
    × ((parse_prefetch_join (some "conv") ≡ value PrefetchJoin.token_end)
        ↔ (prefetch_join_to_string PrefetchJoin.token_end ≡ "conv"))
    × ((parse_pre_touch_coverage (some "conv") ≡ value PreTouchCoverage.conv)
        ↔ (pre_touch_coverage_to_string PreTouchCoverage.conv ≡ "conv"))
parse-to_string_iff_example =
    parse-to_string_iff "conv" LocalityMode.prefetch PreTouchStrategy.vec4 SetAsidePolicy.residency
      HotSetPolicy.quota PrefetchSchedule.ramp HotSetModel.reuse_window WindowScope.ahead
      WindowTarget.conv WindowAttach.stream PrefetchJoin.token_end PreTouchCoverage.conv
