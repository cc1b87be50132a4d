-- ===== src/Executor.antt =====
-- include/tensortransit/executor.h: the statistics and the interface of the executors. An executor that
-- holds a plan holds its value here; the runtime hands a plan over each time it changes it.
pub mod Recording
pub mod Replay
pub mod Examples
use Prim.Native.String.{String}
use recurlocal.Base.{ℕ, Bool, not, ◌||◌, ◌==◌, Option}
use recurlocal.Plan.{TransitPlan}

pub record ExecutorStats : Type 0 where
  pub steps : ℕ
  pub kernels : ℕ
  pub actions_applied : ℕ
  pub actions_skipped : ℕ
  pub actions_failed : ℕ
  pub persist_applied : ℕ
  pub persist_bytes : ℕ
  pub stream_applied : ℕ
  pub prefetch_applied : ℕ
  pub prefetch_bytes : ℕ
  pub clear_applied : ℕ
  pub events_recorded : ℕ
  pub events_waited : ℕ
  pub persist_deferred : ℕ
  pub persist_attached_to_node : ℕ
  pub persist_nodes_attached : ℕ
  pub stale_tensor_refs : ℕ
  pub host_ns : ℕ
  pub capture_invalidations : ℕ
  pub released_during_capture : ℕ
  pub prefetch_skipped : ℕ
  pub stream_deferred : ℕ
  pub windows_never_attached : ℕ

-- `ExecutorStats{}`.
abbrev pub no_stats : ExecutorStats
no_stats = record {
  steps = 0;
  kernels = 0;
  actions_applied = 0;
  actions_skipped = 0;
  actions_failed = 0;
  persist_applied = 0;
  persist_bytes = 0;
  stream_applied = 0;
  prefetch_applied = 0;
  prefetch_bytes = 0;
  clear_applied = 0;
  events_recorded = 0;
  events_waited = 0;
  persist_deferred = 0;
  persist_attached_to_node = 0;
  persist_nodes_attached = 0;
  stale_tensor_refs = 0;
  host_ns = 0;
  capture_invalidations = 0;
  released_during_capture = 0;
  prefetch_skipped = 0;
  stream_deferred = 0;
  windows_never_attached = 0;
}

-- `ExecutorStats::applied_anything`.
abbrev pub applied_anything : ExecutorStats → Bool
applied_anything s = not (s.actions_applied == 0) || not (s.persist_attached_to_node == 0)

-- `ITransitExecutor`, over plans with doubles in W and states E. The first number of the kernel hooks is
-- the time that the clock measures around them, the second the kernel.
pub record ITransitExecutor (W : Type 0) (E : Type 0) : Type 0 where
  pub set_plan : Option (TransitPlan W) → E → E
  pub plan : E → Option (TransitPlan W)
  pub begin_step : E → E
  pub before_kernel : ℕ → ℕ → E → E
  pub after_kernel : ℕ → ℕ → E → E
  pub end_step : E → E
  pub stats : E → ExecutorStats
  pub reset_stats : E → E
  pub name : String
