-- ===== src/Recurrent/Names.antt =====
-- The names that the sweeps and the configuration use, from src/recurrent_planner.cpp. A value outside
-- an enumeration, for which `to_string` gives "unknown", is no value here.
pub mod ReadBack
use Prim.Native.String.{String}
use recurlocal.Base.{Option, none, List, [], ◌∷◌, ◌↔◌, ◌≡◌, refl, some}
use recurlocal.Base.Names.{Parsed, value, parse_named, find_value, IsNamedBy, parse_named_iff}
use recurlocal.Recurrent.{
  LocalityMode, PreTouchStrategy, SetAsidePolicy, HotSetPolicy, PrefetchSchedule, HotSetModel,
  WindowScope, WindowTarget, WindowAttach, PrefetchJoin, PreTouchCoverage,
}

abbrev pub mode_to_string : LocalityMode → String
mode_to_string LocalityMode.baseline = "baseline"
mode_to_string LocalityMode.persist = "persist"
mode_to_string LocalityMode.prefetch = "prefetch"
mode_to_string LocalityMode.combined = "combined"

abbrev pub mode_names : List (String × LocalityMode)
mode_names =
    ("baseline", LocalityMode.baseline)
    ∷ ("persist", LocalityMode.persist)
    ∷ ("prefetch", LocalityMode.prefetch)
    ∷ ("combined", LocalityMode.combined)
    ∷ []

abbrev pub parse_mode : Option String → Parsed LocalityMode
parse_mode = parse_named mode_names "mode is null" "unknown mode: "

abbrev pub pre_touch_strategy_to_string : PreTouchStrategy → String
pre_touch_strategy_to_string PreTouchStrategy.scalar = "scalar"
pre_touch_strategy_to_string PreTouchStrategy.vec4 = "vec4"
pre_touch_strategy_to_string PreTouchStrategy.vec4_ldcg = "vec4_ldcg"
pre_touch_strategy_to_string PreTouchStrategy.ptx_l2 = "ptx_l2"
pre_touch_strategy_to_string PreTouchStrategy.warp_tile = "warp_tile"
pre_touch_strategy_to_string PreTouchStrategy.leading_half = "partial"

abbrev pub pre_touch_strategy_names : List (String × PreTouchStrategy)
pre_touch_strategy_names =
    ("scalar", PreTouchStrategy.scalar)
    ∷ ("vec4", PreTouchStrategy.vec4)
    ∷ ("vec4_ldcg", PreTouchStrategy.vec4_ldcg)
    ∷ ("ptx_l2", PreTouchStrategy.ptx_l2)
    ∷ ("warp_tile", PreTouchStrategy.warp_tile)
    ∷ ("partial", PreTouchStrategy.leading_half)
    ∷ []

abbrev pub parse_pre_touch_strategy : Option String → Parsed PreTouchStrategy
parse_pre_touch_strategy =
    parse_named pre_touch_strategy_names "pre-touch strategy is null" "unknown pre-touch strategy: "

abbrev pub set_aside_policy_to_string : SetAsidePolicy → String
set_aside_policy_to_string SetAsidePolicy.fixed = "fixed"
set_aside_policy_to_string SetAsidePolicy.fit_footprint = "fit_footprint"
set_aside_policy_to_string SetAsidePolicy.residency = "residency"

abbrev pub set_aside_policy_names : List (String × SetAsidePolicy)
set_aside_policy_names =
    ("fixed", SetAsidePolicy.fixed)
    ∷ ("fit_footprint", SetAsidePolicy.fit_footprint)
    ∷ ("residency", SetAsidePolicy.residency)
    ∷ []

-- A null text is the empty text here.
abbrev text_or_empty : Option String → String
text_or_empty none = ""
text_or_empty (some s) = s

abbrev pub parse_set_aside_policy : Option String → Parsed SetAsidePolicy
parse_set_aside_policy text =
    parse_named set_aside_policy_names "" "unknown set-aside policy: " (some (text_or_empty text))

abbrev pub hot_set_policy_to_string : HotSetPolicy → String
hot_set_policy_to_string HotSetPolicy.proportional = "proportional"
hot_set_policy_to_string HotSetPolicy.fixed = "fixed"
hot_set_policy_to_string HotSetPolicy.sqrt = "sqrt"
hot_set_policy_to_string HotSetPolicy.cliff = "cliff"
hot_set_policy_to_string HotSetPolicy.quota = "quota"

abbrev pub hot_set_policy_names : List (String × HotSetPolicy)
hot_set_policy_names =
    ("proportional", HotSetPolicy.proportional)
    ∷ ("fixed", HotSetPolicy.fixed)
    ∷ ("sqrt", HotSetPolicy.sqrt)
    ∷ ("cliff", HotSetPolicy.cliff)
    ∷ ("quota", HotSetPolicy.quota)
    ∷ []

abbrev pub parse_hot_set_policy : Option String → Parsed HotSetPolicy
parse_hot_set_policy =
    parse_named hot_set_policy_names "hot-set policy is null" "unknown hot-set policy: "

abbrev pub prefetch_schedule_to_string : PrefetchSchedule → String
prefetch_schedule_to_string PrefetchSchedule.uniform = "uniform"
prefetch_schedule_to_string PrefetchSchedule.ramp = "ramp"
prefetch_schedule_to_string PrefetchSchedule.alternating = "alternating"
prefetch_schedule_to_string PrefetchSchedule.sparse = "sparse"

abbrev pub prefetch_schedule_names : List (String × PrefetchSchedule)
prefetch_schedule_names =
    ("uniform", PrefetchSchedule.uniform)
    ∷ ("ramp", PrefetchSchedule.ramp)
    ∷ ("alternating", PrefetchSchedule.alternating)
    ∷ ("sparse", PrefetchSchedule.sparse)
    ∷ []

abbrev pub parse_prefetch_schedule : Option String → Parsed PrefetchSchedule
parse_prefetch_schedule =
    parse_named prefetch_schedule_names "prefetch schedule is null" "unknown prefetch schedule: "

abbrev pub hot_set_model_to_string : HotSetModel → String
hot_set_model_to_string HotSetModel.current_layer = "current_layer"
hot_set_model_to_string HotSetModel.token_footprint = "token_footprint"
hot_set_model_to_string HotSetModel.reuse_window = "reuse_window"

abbrev pub hot_set_model_names : List (String × HotSetModel)
hot_set_model_names =
    ("current_layer", HotSetModel.current_layer)
    ∷ ("token_footprint", HotSetModel.token_footprint)
    ∷ ("reuse_window", HotSetModel.reuse_window)
    ∷ []

abbrev pub parse_hot_set_model : Option String → Parsed HotSetModel
parse_hot_set_model =
    parse_named hot_set_model_names "hot-set model is null" "unknown hot-set model: "

abbrev pub window_scope_to_string : WindowScope → String
window_scope_to_string WindowScope.layer = "layer"
window_scope_to_string WindowScope.allocation = "allocation"
window_scope_to_string WindowScope.ahead = "ahead"

abbrev pub window_scope_names : List (String × WindowScope)
window_scope_names =
    ("layer", WindowScope.layer)
    ∷ ("allocation", WindowScope.allocation)
    ∷ ("ahead", WindowScope.ahead)
    ∷ []

abbrev pub parse_window_scope : Option String → Parsed WindowScope
parse_window_scope = parse_named window_scope_names "window scope is null" "unknown window scope: "

abbrev pub window_target_to_string : WindowTarget → String
window_target_to_string WindowTarget.matrix = "matrix"
window_target_to_string WindowTarget.conv = "conv"
window_target_to_string WindowTarget.widest = "widest"
window_target_to_string WindowTarget.narrowest = "narrowest"

abbrev pub window_target_names : List (String × WindowTarget)
window_target_names =
    ("matrix", WindowTarget.matrix)
    ∷ ("conv", WindowTarget.conv)
    ∷ ("widest", WindowTarget.widest)
    ∷ ("narrowest", WindowTarget.narrowest)
    ∷ []

abbrev pub parse_window_target : Option String → Parsed WindowTarget
parse_window_target =
    parse_named window_target_names "window target is null" "unknown window target: "

abbrev pub window_attach_to_string : WindowAttach → String
window_attach_to_string WindowAttach.stream = "stream"
window_attach_to_string WindowAttach.capture_node = "capture_node"
window_attach_to_string WindowAttach.capture_node_strict = "capture_node_strict"

abbrev pub window_attach_names : List (String × WindowAttach)
window_attach_names =
    ("stream", WindowAttach.stream)
    ∷ ("capture_node", WindowAttach.capture_node)
    ∷ ("capture_node_strict", WindowAttach.capture_node_strict)
    ∷ []

abbrev pub parse_window_attach : Option String → Parsed WindowAttach
parse_window_attach =
    parse_named window_attach_names "window attach is null" "unknown window attach: "

abbrev pub prefetch_join_to_string : PrefetchJoin → String
prefetch_join_to_string PrefetchJoin.per_layer = "per_layer"
prefetch_join_to_string PrefetchJoin.token_end = "token_end"

abbrev pub prefetch_join_names : List (String × PrefetchJoin)
prefetch_join_names =
    ("per_layer", PrefetchJoin.per_layer) ∷ ("token_end", PrefetchJoin.token_end) ∷ []

abbrev pub parse_prefetch_join : Option String → Parsed PrefetchJoin
parse_prefetch_join =
    parse_named prefetch_join_names "prefetch join is null" "unknown prefetch join: "

abbrev pub pre_touch_coverage_to_string : PreTouchCoverage → String
pre_touch_coverage_to_string PreTouchCoverage.matrix = "matrix"
pre_touch_coverage_to_string PreTouchCoverage.conv = "conv"
pre_touch_coverage_to_string PreTouchCoverage.both = "both"

abbrev pub pre_touch_coverage_names : List (String × PreTouchCoverage)
pre_touch_coverage_names =
    ("matrix", PreTouchCoverage.matrix)
    ∷ ("conv", PreTouchCoverage.conv)
    ∷ ("both", PreTouchCoverage.both)
    ∷ []

abbrev pub parse_pre_touch_coverage : Option String → Parsed PreTouchCoverage
parse_pre_touch_coverage =
    parse_named pre_touch_coverage_names "pre-touch coverage is null" "unknown pre-touch coverage: "
