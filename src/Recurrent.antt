-- ===== src/Recurrent.antt =====
-- include/tensortransit/recurrent.h: the data of the recurrent-state planner. The parts of
-- src/recurrent_planner.cpp are the modules below. An `int` that counts layers or requests is a ℤ,
-- and a `std::size_t` a natural.
pub mod Names
pub mod Examples
pub mod LayerPlans
pub mod Quota
pub mod Window
pub mod Layers
pub mod Budget
pub mod Saturating
use recurlocal.Base.{ℕ, Bool, true, false, ◌&&◌, not, ◌==◌, ltb}
use recurlocal.Base.Int.{ℤ, pos, negsuc, ltℤ}

pub data LocalityMode : Type 0 where
  baseline persist prefetch combined : LocalityMode

pub data PreTouchStrategy : Type 0 where
  scalar vec4 vec4_ldcg ptx_l2 warp_tile leading_half : PreTouchStrategy

pub data PrefetchSchedule : Type 0 where
  uniform ramp alternating sparse : PrefetchSchedule

pub data HotSetModel : Type 0 where
  current_layer token_footprint reuse_window : HotSetModel

pub data WindowScope : Type 0 where
  layer allocation ahead : WindowScope

pub data WindowTarget : Type 0 where
  matrix conv widest narrowest : WindowTarget

pub data PreTouchCoverage : Type 0 where
  matrix conv both : PreTouchCoverage

pub data WindowAttach : Type 0 where
  stream capture_node capture_node_strict : WindowAttach

pub data PrefetchJoin : Type 0 where
  per_layer token_end : PrefetchJoin

pub data SetAsidePolicy : Type 0 where
  fixed fit_footprint residency : SetAsidePolicy

pub data HotSetPolicy : Type 0 where
  proportional fixed sqrt cliff quota : HotSetPolicy

pub data StateKind : Type 0 where
  matrix conv other : StateKind

-- A null pointer is 0.
pub record StateSegment : Type 0 where
  pub ptr : ℕ
  pub bytes : ℕ
  pub base : ℕ
  pub base_bytes : ℕ
  pub kind : StateKind

pub record WindowRegion : Type 0 where
  pub ptr : ℕ
  pub bytes : ℕ

pub record RecurrentGeometry : Type 0 where
  pub recurrent_layers : ℤ
  pub bytes_per_layer : ℕ
  pub sequences : ℤ
  pub streamed_bytes_per_token : ℕ

-- `RecurrentGeometry::valid`.
abbrev pub valid : RecurrentGeometry → Bool
valid g = ltℤ (pos 0) g.recurrent_layers && ltb 0 g.bytes_per_layer

pub record DeviceCaps : Type 0 where
  pub l2_bytes : ℕ
  pub persisting_l2_max_bytes : ℕ
  pub access_policy_max_window_bytes : ℕ

pub record PlannerConfig (W : Type 0) : Type 0 where
  pub mode : LocalityMode
  pub persisting_budget_fraction : W
  pub hit_ratio : W
  pub prefetch_distance : ℤ
  pub max_hot_window_bytes : ℕ
  pub pre_touch : PreTouchStrategy
  pub hot_set_policy : HotSetPolicy
  pub set_aside_policy : SetAsidePolicy
  pub min_residency : W
  pub prefetch_schedule : PrefetchSchedule
  pub hot_set_model : HotSetModel
  pub window_scope : WindowScope
  pub window_target : WindowTarget
  pub pre_touch_coverage : PreTouchCoverage
  pub prefetch_join : PrefetchJoin
  pub window_attach : WindowAttach
  pub min_hit_ratio : W

-- `LocalityPlanner`: the device, the configuration and what the driver granted, 0 before it is known.
pub record LocalityPlanner (W : Type 0) : Type 0 where
  pub caps : DeviceCaps
  pub config : PlannerConfig W
  pub granted_l2_set_aside : ℕ

pub record LayerPlan (W : Type 0) : Type 0 where
  pub hot_window_bytes : ℕ
  pub hit_ratio : W
  pub use_persisting_window : Bool
  pub prefetch_next : Bool
  pub prefetch_distance : ℤ
  pub pre_touch : PreTouchStrategy
  pub hot_set_oversubscribed : Bool
  pub hit_ratio_reduced : Bool
  pub hot_set_bytes : ℕ
  pub hot_set_budget_bytes : ℕ
  pub hot_set_model : HotSetModel
  pub hot_set_policy : HotSetPolicy
  pub window_scope : WindowScope
  pub window_target : WindowTarget
  pub pre_touch_coverage : PreTouchCoverage
