-- ===== src/Planner.antt =====
-- include/tensortransit/planner.h, and the validation and presets of src/planner_registry.cpp.
pub mod Mask
pub mod Candidates
pub mod Cost
pub mod Admit
pub mod Emit
pub mod Streaming
pub mod Windows
pub mod Finish
pub mod Budgeted
pub mod Greedy
pub mod Concurrency
pub mod RecurrentV0
pub mod Bounds
pub mod Examples
use Prim.Native.String.{String}
use recurlocal.Base.{
  ℕ, ◌^◌, ◌-◌, Bool, true, false, not, ◌&&◌, ◌||◌, ◌==◌, Option, none, some, if◌then◌else◌,
}
use recurlocal.Base.Int.{ℤ, pos, negsuc, ltℤ}
use recurlocal.Double.{Double, nought, unit}
use recurlocal.Tensor.{
  TensorRole, role_value, recurrent_state, kv_cache, model_weight, expert_weight,
}
use recurlocal.Planner.Mask.{RoleMask}
use recurlocal.Planner.Mask
use recurlocal.Plan.{CostModel}
use recurlocal.Graph.{ReuseMetric, TransitGraph}
use recurlocal.Registry.{Registry}
use recurlocal.Device.{DeviceProfile, RuntimeState}

pub data AdmissionRule : Type 0 where
  density quota proportional reuse_order survival role_floor : AdmissionRule

pub data PrefetchTiming : Type 0 where
  fixed_distance bandwidth_aware eager : PrefetchTiming

pub data WindowBinding : Type 0 where
  per_consumer sticky : WindowBinding

pub data WindowPreference : Type 0 where
  densest widest narrowest soonest_reuse : WindowPreference

pub record TransitPlannerConfig (W : Type 0) : Type 0 where
  pub persist_roles : RoleMask
  pub prefetch_roles : RoleMask
  pub stream_roles : RoleMask
  pub admission : AdmissionRule
  pub reuse_metric : ReuseMetric
  pub budget_fraction : W
  pub hit_ratio : W
  pub min_hit_ratio : W
  pub role_floor_share : W
  pub max_reuse_distance_budgets : W
  pub window_binding : WindowBinding
  pub max_windows_per_kernel : ℤ
  pub window_preference : WindowPreference
  pub prefetch_enabled : Bool
  pub prefetch_timing : PrefetchTiming
  pub prefetch_distance : ℤ
  pub prefetch_min_bytes : ℕ
  pub prefetch_join_at_end : Bool
  pub stream_min_bytes : ℕ
  pub cost_model : CostModel
  pub residency_beta : W
  pub reservation_cost : W
  pub stream_relief : W
  pub cache_line_bytes : ℕ
  pub max_actions : ℕ

-- The pointers of `PlanInput` are null, or name the graph and the registry.
pub record PlanInput : Type 0 where
  pub graph : Option TransitGraph
  pub registry : Option Registry
  pub device : DeviceProfile
  pub runtime : RuntimeState

module _ {W : Type 0} ⦃d : Double W⦄ where
  abbrev between : W → W → W → Bool
  between lo x hi = d.le lo x && d.le x hi

  -- `validate(config)`: the first dial that is out of range.
  pub validate_config : TransitPlannerConfig W → Option String
  validate_config c =
      if not (between nought c.budget_fraction unit)
      then some "budget_fraction must be in [0,1]"
      else if not (d.lt nought c.hit_ratio && d.le c.hit_ratio unit)
      then some "hit_ratio must be in (0,1]"
      else if not (between nought c.min_hit_ratio unit)
      then some "min_hit_ratio must be in [0,1]"
      else if d.lt c.hit_ratio c.min_hit_ratio
      then some "min_hit_ratio exceeds hit_ratio: every candidate would be declined"
      else if not (between nought c.role_floor_share unit)
      then some "role_floor_share must be in [0,1]"
      else if ltℤ c.prefetch_distance (pos 0) || ltℤ (pos 64) c.prefetch_distance
      then some "prefetch_distance must be in [0,64]"
      else if not (d.le nought c.max_reuse_distance_budgets)
      then some "max_reuse_distance_budgets must be >= 0"
      else if c.max_actions == 0
      then some "max_actions must be non-zero"
      else if ltℤ c.max_windows_per_kernel (pos 0)
      then some "max_windows_per_kernel must be >= 0 (0 means unbounded)"
      else if not (between nought c.stream_relief unit)
      then some "stream_relief must be in [0,1]"
      else if c.cache_line_bytes == 0
      then some "cache_line_bytes must be non-zero"
      else if not (between nought c.residency_beta unit)
      then some
          "residency_beta must be in [0,1]: it is the curvature of a miss-ratio curve, and above 1 the model would say a cache helps more the less of it you have"
      else if not (d.le nought c.reservation_cost)
      then some
          "reservation_cost must be >= 0: a negative one would say that taking L2 away from the streaming traffic makes the streaming traffic faster"
      else none

pub data PolicyPreset : Type 0 where
  baseline recurrent_only kv_only naive_both_persistent global : PolicyPreset

pub preset_config : {W : Type 0} → PolicyPreset → TransitPlannerConfig W → TransitPlannerConfig W
preset_config baseline base = record base {
  persist_roles = Mask.nothing;
  prefetch_roles = Mask.nothing;
  stream_roles = Mask.nothing;
  prefetch_enabled = false;
}
preset_config recurrent_only base = record base {
  persist_roles = Mask.of recurrent_state;
  admission = density;
  stream_roles = Mask.nothing;
}
preset_config kv_only base = record base {
  persist_roles = Mask.of kv_cache;
  admission = density;
  stream_roles = Mask.nothing;
}
preset_config naive_both_persistent base = record base {
  persist_roles = Mask.of_two recurrent_state kv_cache;
  admission = proportional;
  stream_roles = Mask.nothing;
}
preset_config global base = record base {
  persist_roles = Mask.of_two recurrent_state kv_cache;
  admission = role_floor;
  stream_roles = Mask.of_two model_weight expert_weight;
}
