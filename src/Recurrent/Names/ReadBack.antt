-- ===== src/Recurrent/Names/ReadBack.antt =====
-- Parsing the names reads back what was printed, and nothing else.
use Prim.Native.String.{String}
use recurlocal.Base.{◌↔◌, ◌≡◌, refl, some}
use recurlocal.Base.Names.{value, find_value, IsNamedBy, parse_named_iff}
use recurlocal.Recurrent.{
  LocalityMode, PreTouchStrategy, SetAsidePolicy, HotSetPolicy, PrefetchSchedule, HotSetModel,
  WindowScope, WindowTarget, WindowAttach, PrefetchJoin, PreTouchCoverage,
}
use recurlocal.Recurrent.Names.{
  mode_to_string, mode_names, parse_mode, pre_touch_strategy_to_string, pre_touch_strategy_names,
  parse_pre_touch_strategy, set_aside_policy_to_string, set_aside_policy_names,
  parse_set_aside_policy, hot_set_policy_to_string, hot_set_policy_names, parse_hot_set_policy,
  prefetch_schedule_to_string, prefetch_schedule_names, parse_prefetch_schedule,
  hot_set_model_to_string, hot_set_model_names, parse_hot_set_model, window_scope_to_string,
  window_scope_names, parse_window_scope, window_target_to_string, window_target_names,
  parse_window_target, window_attach_to_string, window_attach_names, parse_window_attach,
  prefetch_join_to_string, prefetch_join_names, parse_prefetch_join, pre_touch_coverage_to_string,
  pre_touch_coverage_names, parse_pre_touch_coverage,
}

find_mode : (v : LocalityMode) → find_value mode_names (mode_to_string v) ≡ some v
unfolding find_value
find_mode LocalityMode.baseline = refl
find_mode LocalityMode.persist = refl
find_mode LocalityMode.prefetch = refl
find_mode LocalityMode.combined = refl

named_mode : IsNamedBy mode_to_string mode_names
unfolding IsNamedBy
named_mode = (refl, (refl, (refl, (refl, (tt)))))

find_pre_touch_strategy :
    (v : PreTouchStrategy)
    → find_value pre_touch_strategy_names (pre_touch_strategy_to_string v) ≡ some v
unfolding find_value
find_pre_touch_strategy PreTouchStrategy.scalar = refl
find_pre_touch_strategy PreTouchStrategy.vec4 = refl
find_pre_touch_strategy PreTouchStrategy.vec4_ldcg = refl
find_pre_touch_strategy PreTouchStrategy.ptx_l2 = refl
find_pre_touch_strategy PreTouchStrategy.warp_tile = refl
find_pre_touch_strategy PreTouchStrategy.leading_half = refl

named_pre_touch_strategy : IsNamedBy pre_touch_strategy_to_string pre_touch_strategy_names
unfolding IsNamedBy
named_pre_touch_strategy = (refl, (refl, (refl, (refl, (refl, (refl, (tt)))))))

find_set_aside_policy :
    (v : SetAsidePolicy) → find_value set_aside_policy_names (set_aside_policy_to_string v) ≡ some v
unfolding find_value
find_set_aside_policy SetAsidePolicy.fixed = refl
find_set_aside_policy SetAsidePolicy.fit_footprint = refl
find_set_aside_policy SetAsidePolicy.residency = refl

named_set_aside_policy : IsNamedBy set_aside_policy_to_string set_aside_policy_names
unfolding IsNamedBy
named_set_aside_policy = (refl, (refl, (refl, (tt))))

find_hot_set_policy :
    (v : HotSetPolicy) → find_value hot_set_policy_names (hot_set_policy_to_string v) ≡ some v
unfolding find_value
find_hot_set_policy HotSetPolicy.proportional = refl
find_hot_set_policy HotSetPolicy.fixed = refl
find_hot_set_policy HotSetPolicy.sqrt = refl
find_hot_set_policy HotSetPolicy.cliff = refl
find_hot_set_policy HotSetPolicy.quota = refl

named_hot_set_policy : IsNamedBy hot_set_policy_to_string hot_set_policy_names
unfolding IsNamedBy
named_hot_set_policy = (refl, (refl, (refl, (refl, (refl, (tt))))))

find_prefetch_schedule :
    (v : PrefetchSchedule)
    → find_value prefetch_schedule_names (prefetch_schedule_to_string v) ≡ some v
unfolding find_value
find_prefetch_schedule PrefetchSchedule.uniform = refl
find_prefetch_schedule PrefetchSchedule.ramp = refl
find_prefetch_schedule PrefetchSchedule.alternating = refl
find_prefetch_schedule PrefetchSchedule.sparse = refl

named_prefetch_schedule : IsNamedBy prefetch_schedule_to_string prefetch_schedule_names
unfolding IsNamedBy
named_prefetch_schedule = (refl, (refl, (refl, (refl, (tt)))))

find_hot_set_model :
    (v : HotSetModel) → find_value hot_set_model_names (hot_set_model_to_string v) ≡ some v
unfolding find_value
find_hot_set_model HotSetModel.current_layer = refl
find_hot_set_model HotSetModel.token_footprint = refl
find_hot_set_model HotSetModel.reuse_window = refl

named_hot_set_model : IsNamedBy hot_set_model_to_string hot_set_model_names
unfolding IsNamedBy
named_hot_set_model = (refl, (refl, (refl, (tt))))

find_window_scope :
    (v : WindowScope) → find_value window_scope_names (window_scope_to_string v) ≡ some v
unfolding find_value
find_window_scope WindowScope.layer = refl
find_window_scope WindowScope.allocation = refl
find_window_scope WindowScope.ahead = refl

named_window_scope : IsNamedBy window_scope_to_string window_scope_names
unfolding IsNamedBy
named_window_scope = (refl, (refl, (refl, (tt))))

find_window_target :
    (v : WindowTarget) → find_value window_target_names (window_target_to_string v) ≡ some v
unfolding find_value
find_window_target WindowTarget.matrix = refl
find_window_target WindowTarget.conv = refl
find_window_target WindowTarget.widest = refl
find_window_target WindowTarget.narrowest = refl

named_window_target : IsNamedBy window_target_to_string window_target_names
unfolding IsNamedBy
named_window_target = (refl, (refl, (refl, (refl, (tt)))))

find_window_attach :
    (v : WindowAttach) → find_value window_attach_names (window_attach_to_string v) ≡ some v
unfolding find_value
find_window_attach WindowAttach.stream = refl
find_window_attach WindowAttach.capture_node = refl
find_window_attach WindowAttach.capture_node_strict = refl

named_window_attach : IsNamedBy window_attach_to_string window_attach_names
unfolding IsNamedBy
named_window_attach = (refl, (refl, (refl, (tt))))

find_prefetch_join :
    (v : PrefetchJoin) → find_value prefetch_join_names (prefetch_join_to_string v) ≡ some v
unfolding find_value
find_prefetch_join PrefetchJoin.per_layer = refl
find_prefetch_join PrefetchJoin.token_end = refl

named_prefetch_join : IsNamedBy prefetch_join_to_string prefetch_join_names
unfolding IsNamedBy
named_prefetch_join = (refl, (refl, (tt)))

find_pre_touch_coverage :
    (v : PreTouchCoverage)
    → find_value pre_touch_coverage_names (pre_touch_coverage_to_string v) ≡ some v
unfolding find_value
find_pre_touch_coverage PreTouchCoverage.matrix = refl
find_pre_touch_coverage PreTouchCoverage.conv = refl
find_pre_touch_coverage PreTouchCoverage.both = refl

named_pre_touch_coverage : IsNamedBy pre_touch_coverage_to_string pre_touch_coverage_names
unfolding IsNamedBy
named_pre_touch_coverage = (refl, (refl, (refl, (tt))))

-- For the eleven enumerations of the recurrent planner in include/tensortransit/recurrent.h, parsing a text that is
-- not null gives a value exactly when the text is the name of that value, so every name is read back and every other text is refused.
pub parse-to_string_iff :
    (s : String) (mode : LocalityMode) (pre_touch_strategy : PreTouchStrategy)
    (set_aside_policy : SetAsidePolicy) (hot_set_policy : HotSetPolicy)
    (prefetch_schedule : PrefetchSchedule) (hot_set_model : HotSetModel)
    (window_scope : WindowScope) (window_target : WindowTarget) (window_attach : WindowAttach)
    (prefetch_join : PrefetchJoin) (pre_touch_coverage : PreTouchCoverage)
    → ((parse_mode (some s) ≡ value mode) ↔ (mode_to_string mode ≡ s))
      × ((parse_pre_touch_strategy (some s) ≡ value pre_touch_strategy)
          ↔ (pre_touch_strategy_to_string pre_touch_strategy ≡ s))
      × ((parse_set_aside_policy (some s) ≡ value set_aside_policy)
          ↔ (set_aside_policy_to_string set_aside_policy ≡ s))
      × ((parse_hot_set_policy (some s) ≡ value hot_set_policy)
          ↔ (hot_set_policy_to_string hot_set_policy ≡ s))
      × ((parse_prefetch_schedule (some s) ≡ value prefetch_schedule)
          ↔ (prefetch_schedule_to_string prefetch_schedule ≡ s))
      × ((parse_hot_set_model (some s) ≡ value hot_set_model)
          ↔ (hot_set_model_to_string hot_set_model ≡ s))
      × ((parse_window_scope (some s) ≡ value window_scope)
          ↔ (window_scope_to_string window_scope ≡ s))
      × ((parse_window_target (some s) ≡ value window_target)
          ↔ (window_target_to_string window_target ≡ s))
      × ((parse_window_attach (some s) ≡ value window_attach)
          ↔ (window_attach_to_string window_attach ≡ s))
      × ((parse_prefetch_join (some s) ≡ value prefetch_join)
          ↔ (prefetch_join_to_string prefetch_join ≡ s))
      × ((parse_pre_touch_coverage (some s) ≡ value pre_touch_coverage)
          ↔ (pre_touch_coverage_to_string pre_touch_coverage ≡ s))
parse-to_string_iff s mode pre_touch_strategy set_aside_policy hot_set_policy prefetch_schedule
      hot_set_model window_scope window_target window_attach prefetch_join pre_touch_coverage =
    (
      parse_named_iff _ _ _ _ s mode named_mode (find_mode mode),
      parse_named_iff _ _ _ _ s pre_touch_strategy named_pre_touch_strategy
          (find_pre_touch_strategy pre_touch_strategy),
      parse_named_iff _ _ _ _ s set_aside_policy named_set_aside_policy
          (find_set_aside_policy set_aside_policy),
      parse_named_iff _ _ _ _ s hot_set_policy named_hot_set_policy
          (find_hot_set_policy hot_set_policy),
      parse_named_iff _ _ _ _ s prefetch_schedule named_prefetch_schedule
          (find_prefetch_schedule prefetch_schedule),
      parse_named_iff _ _ _ _ s hot_set_model named_hot_set_model
          (find_hot_set_model hot_set_model),
      parse_named_iff _ _ _ _ s window_scope named_window_scope (find_window_scope window_scope),
      parse_named_iff _ _ _ _ s window_target named_window_target
          (find_window_target window_target),
      parse_named_iff _ _ _ _ s window_attach named_window_attach
          (find_window_attach window_attach),
      parse_named_iff _ _ _ _ s prefetch_join named_prefetch_join
          (find_prefetch_join prefetch_join),
      parse_named_iff _ _ _ _ s pre_touch_coverage named_pre_touch_coverage
          (find_pre_touch_coverage pre_touch_coverage),
    )
