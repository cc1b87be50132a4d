-- ===== src/Plan.antt =====
-- include/tensortransit/plan.h and src/plan.cpp: actions, declines and `TransitPlan`. What `finalize`
-- keeps as pointers into the actions are positions in their list here.
pub mod Validate
pub mod Index
pub mod Digest
pub mod Rebind
pub mod Examples
use Prim.Native.String.{String}
use recurlocal.Base.{
  ℕ, zero, suc, ◌+◌, Bool, true, false, not, ◌&&◌, ◌||◌, ◌==◌, ltb, List, [], ◌∷◌, ◌++◌, Option,
  none, some, if◌then◌else◌, get_elem?, length, any, add64, sub64,
}
use recurlocal.Double.{Double, nought, unit}
use recurlocal.Tensor.{TensorRole, TensorDesc, allocation_bytes}
use recurlocal.Registry.{Registry, find}

pub data TransitActionKind : Type 0 where
  normal persist stream prefetch : TransitActionKind
  rotate_window clear_policy record_event wait_event : TransitActionKind

abbrev pub kind_value : TransitActionKind → ℕ
kind_value normal = 0
kind_value persist = 1
kind_value stream = 2
kind_value prefetch = 3
kind_value rotate_window = 4
kind_value clear_policy = 5
kind_value record_event = 6
kind_value wait_event = 7

abbrev pub is_kind : TransitActionKind → TransitActionKind → Bool
is_kind a b = kind_value a == kind_value b

pub record TransitAction (W : Type 0) : Type 0 where
  pub kind : TransitActionKind
  pub tensor : ℕ
  pub before_kernel : ℕ
  pub after_kernel : ℕ
  pub ptr : ℕ
  pub bytes : ℕ
  pub hit_ratio : W
  pub stream_id : ℕ
  pub event_id : ℕ
  pub expected_saved_bytes : ℕ
  pub role : TensorRole

pub data DeclineReason : Type 0 where
  no_reason no_reuse budget_exhausted too_large : DeclineReason
  reuse_too_far role_excluded below_min_hit_ratio not_supported : DeclineReason

pub record TransitDecline : Type 0 where
  pub tensor : ℕ
  pub role : TensorRole
  pub reason : DeclineReason
  pub bytes : ℕ
  pub forgone_saved_bytes : ℕ

pub data CostModel : Type 0 where
  linear residency : CostModel

pub record PlanCostModel : Type 0 where
  pub step_traffic_bytes : ℕ
  pub removable_bytes : ℕ
  pub bounded_removable_bytes : ℕ
  pub predicted_saved_bytes : ℕ
  pub budget_bytes : ℕ
  pub committed_bytes : ℕ
  pub peak_live_bytes : ℕ
  pub resident_bytes : ℕ
  pub stream_relieved_bytes : ℕ
  pub predicted_gross_saved_bytes : ℕ
  pub reservation_cost_bytes : ℕ
  pub cost_model : CostModel

abbrev pub no_cost : PlanCostModel
no_cost = record {
  step_traffic_bytes = 0;
  removable_bytes = 0;
  bounded_removable_bytes = 0;
  predicted_saved_bytes = 0;
  budget_bytes = 0;
  committed_bytes = 0;
  peak_live_bytes = 0;
  resident_bytes = 0;
  stream_relieved_bytes = 0;
  predicted_gross_saved_bytes = 0;
  reservation_cost_bytes = 0;
  cost_model = residency;
}

-- The positions of actions grouped by kernel: group `i` is for `keys[i]`, and lies in `index` from
-- `offsets[i]` to `offsets[i + 1]`.
pub record KernelIndex : Type 0 where
  pub index : List ℕ
  pub keys : List ℕ
  pub offsets : List ℕ

abbrev pub no_index : KernelIndex
no_index = record { index = []; keys = []; offsets = [] }

pub record TransitPlan (W : Type 0) : Type 0 where
  pub actions : List (TransitAction W)
  pub declines : List TransitDecline
  pub cost : PlanCostModel
  pub planner_name : String
  pub before_index : KernelIndex
  pub after_index : KernelIndex
  pub finalized : Bool

module _ {W : Type 0} where
  -- `TransitPlan{}`, and what `clear` leaves.
  abbrev pub no_plan : TransitPlan W
  no_plan = record {
    actions = [];
    declines = [];
    cost = no_cost;
    planner_name = "";
    before_index = no_index;
    after_index = no_index;
    finalized = false;
  }

  abbrev pub add : TransitPlan W → TransitAction W → TransitPlan W
  add p a = record p { actions = p.actions ++ (a ∷ []) }

  abbrev pub decline : TransitPlan W → TransitDecline → TransitPlan W
  decline p d = record p { declines = p.declines ++ (d ∷ []) }

  pub count : TransitActionKind → List (TransitAction W) → ℕ
  count kind [] = 0
  count kind (a ∷ rest) = if is_kind a.kind kind then add64 (count kind rest) 1 else count kind rest
