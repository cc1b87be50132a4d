-- ===== src/Runtime.antt =====
-- include/tensortransit/runtime.h and src/runtime.cpp: `TransitRuntime`, over doubles in W and an executor
-- with states E. A duration that the clock measures is an argument of the operation that adds it.
pub mod Cache
pub mod Current
pub mod InForce
pub mod Examples
use Prim.Native.String.{String}
use recurlocal.Base.{
  ℕ, zero, suc, Bool, true, false, not, ◌&&◌, ◌||◌, ◌==◌, bool_eq, Option, none, some, List, [],
  ◌∷◌, if◌then◌else◌, add64,
}
use recurlocal.Base.Int.{ℤ, pos, eqℤ}
use recurlocal.Base.Hash.{fnv_offset, hash_bytes, hash64, hash32, int_bits}
use recurlocal.Double.{Double, of_nat, nought}
use recurlocal.Tensor.{AccessKind, read, write, read_write, TensorDesc, TensorHandle}
use recurlocal.Registry.{Registry}
use recurlocal.Registry
use recurlocal.Graph.{TransitGraph, KernelEvent, TensorUse, no_graph, set_cyclic}
use recurlocal.Graph
use recurlocal.Graph.Build.{build}
use recurlocal.Device.{DeviceProfile, RuntimeState, RuntimePhase, phase_value, decode}
use recurlocal.Plan.{TransitPlan, no_plan}
use recurlocal.Plan.Index.{finalize}
use recurlocal.Planner.{PlanInput}
use recurlocal.Executor.{ITransitExecutor}

pub data RecompileReason : Type 0 where
  no_recompile first_compile registry_epoch graph_changed concurrency_changed : RecompileReason
  phase_changed device_changed config_changed forced : RecompileReason

abbrev pub reason_to_string : RecompileReason → String
reason_to_string no_recompile = "none"
reason_to_string first_compile = "first_compile"
reason_to_string registry_epoch = "registry_epoch"
reason_to_string graph_changed = "graph_changed"
reason_to_string concurrency_changed = "concurrency_changed"
reason_to_string phase_changed = "phase_changed"
reason_to_string device_changed = "device_changed"
reason_to_string config_changed = "config_changed"
reason_to_string forced = "forced"

pub record PlanKey : Type 0 where
  pub registry_epoch : ℕ
  pub graph_digest : ℕ
  pub active_requests : ℤ
  pub phase : RuntimePhase
  pub device : ℤ
  pub config_digest : ℕ

-- `PlanKey{}`.
abbrev pub no_key : PlanKey
no_key = record {
  registry_epoch = 0;
  graph_digest = 0;
  active_requests = pos 0;
  phase = decode;
  device = pos 0;
  config_digest = 0;
}

abbrev pub same_phase : RuntimePhase → RuntimePhase → Bool
same_phase a b = phase_value a == phase_value b

-- `operator==`.
unfoldable pub same_key : PlanKey → PlanKey → Bool
same_key a b =
    a.registry_epoch == b.registry_epoch
    && a.graph_digest == b.graph_digest
    && eqℤ a.active_requests b.active_requests
    && same_phase a.phase b.phase
    && eqℤ a.device b.device
    && a.config_digest == b.config_digest

pub record RuntimeStats : Type 0 where
  pub compiles : ℕ
  pub plan_reuses : ℕ
  pub steps : ℕ
  pub compile_ns : ℕ
  pub record_ns : ℕ
  pub last_reason : RecompileReason

abbrev pub no_runtime_stats : RuntimeStats
no_runtime_stats = record {
  compiles = 0;
  plan_reuses = 0;
  steps = 0;
  compile_ns = 0;
  record_ns = 0;
  last_reason = no_recompile;
}

abbrev pub reuse_rate : {W : Type 0} ⦃d : Double W⦄ → RuntimeStats → W
reuse_rate ⦃d⦄ s =
    let total = add64 s.compiles s.plan_reuses in
    if total == 0 then nought else d.div (of_nat s.plan_reuses) (of_nat total)

-- `ITransitPlanner`.
pub record ITransitPlanner (W : Type 0) : Type 0 where
  pub build_plan : PlanInput → TransitPlan W
  pub name : String

pub record TransitRuntime (W : Type 0) (E : Type 0) : Type 0 where
  pub registry : Registry
  pub graph : TransitGraph
  pub plan : TransitPlan W
  pub device : DeviceProfile
  pub planner : Option (ITransitPlanner W)
  pub executor : Option E
  pub key : PlanKey
  pub have_plan : Bool
  pub recording : Bool
  pub config_digest : ℕ
  pub stats : RuntimeStats

-- `memcmp` of two profiles; their padding takes no part.
abbrev pub same_device : DeviceProfile → DeviceProfile → Bool
same_device a b =
    eqℤ a.device b.device
    && a.l2_bytes == b.l2_bytes
    && a.persisting_l2_max_bytes == b.persisting_l2_max_bytes
    && a.access_policy_max_window_bytes == b.access_policy_max_window_bytes
    && eqℤ a.sm_count b.sm_count
    && eqℤ a.major b.major
    && eqℤ a.minor b.minor
    && a.global_memory_bytes == b.global_memory_bytes
    && a.peak_bandwidth_bytes_per_s == b.peak_bandwidth_bytes_per_s

abbrev access_value : AccessKind → ℕ
access_value read = 0
access_value write = 1
access_value read_write = 2

abbrev pub hash_kernels : ℕ → List KernelEvent → ℕ
hash_kernels h [] = h
hash_kernels h (k ∷ ks) =
    hash_kernels (hash32 (hash64 (hash64 h k.id) k.order) (int_bits k.stream_id)) ks

abbrev pub hash_uses : ℕ → List TensorUse → ℕ
hash_uses h [] = h
hash_uses h (u ∷ us) =
    hash_uses
      (hash64 (hash32 (hash64 (hash64 h u.tensor) u.kernel) (access_value u.access)) u.bytes) us

-- `digest_graph`: the kernels, the uses, and one byte for the cyclic flag.
pub digest_graph : TransitGraph → ℕ
digest_graph g =
    hash_bytes (hash_uses (hash_kernels fnv_offset g.kernels) g.uses)
      ((if g.cyclic then 1 else 0) ∷ [])

abbrev pub reason_for : PlanKey → PlanKey → RecompileReason
reason_for key old =
    if not (key.registry_epoch == old.registry_epoch)
    then registry_epoch
    else if not (key.graph_digest == old.graph_digest)
    then graph_changed
    else if not (eqℤ key.active_requests old.active_requests)
    then concurrency_changed
    else if not (same_phase key.phase old.phase)
    then phase_changed
    else if not (eqℤ key.device old.device)
    then device_changed
    else config_changed

abbrev pub on_some : {E : Type 0} → (E → E) → Option E → Option E
on_some f none = none
on_some f (some e) = some (f e)

-- What the planner gives, or the cleared plan without one.
abbrev built : {W : Type 0} → Option (ITransitPlanner W) → PlanInput → TransitPlan W
built none input = no_plan
built (some p) input = p.build_plan input

unfoldable pub indexed : {W : Type 0} → TransitPlan W → TransitPlan W
indexed p = if p.finalized then p else finalize p

module _ {W : Type 0} {E : Type 0} where
  -- A runtime as it is constructed, with the planner that the constructor makes.
  abbrev pub fresh : DeviceProfile → ITransitPlanner W → TransitRuntime W E
  fresh device planner = record {
    registry = Registry.empty;
    graph = no_graph;
    plan = no_plan;
    device = device;
    planner = some planner;
    executor = none;
    key = no_key;
    have_plan = false;
    recording = false;
    config_digest = 0;
    stats = no_runtime_stats;
  }

  unfoldable pub invalidate_plan : RecompileReason → TransitRuntime W E → TransitRuntime W E
  invalidate_plan reason r = record r {
    have_plan = false;
    key = no_key;
    stats = record r.stats { last_reason = reason };
  }

  unfoldable pub set_device_profile : DeviceProfile → TransitRuntime W E → TransitRuntime W E
  set_device_profile device r =
      let kept = if same_device device r.device then r else invalidate_plan device_changed r in
      record kept { device = device }

  unfoldable pub set_planner : Option (ITransitPlanner W) → TransitRuntime W E → TransitRuntime W E
  set_planner planner r = invalidate_plan config_changed (record r { planner = planner })

  -- `set_planner(name, config)`: `made` is what `make_planner` gives for them, and the bytes are those of
  -- the configuration in memory and of the name.
  unfoldable pub set_named_planner :
      Option (ITransitPlanner W) → List ℕ → List ℕ → TransitRuntime W E → TransitRuntime W E × Bool
  set_named_planner none config_bytes name r = (r, false)
  set_named_planner (some planner) config_bytes name r =
      let digest = hash_bytes (hash_bytes fnv_offset config_bytes) name in
      (set_planner (some planner) (record r { config_digest = digest }), true)

  abbrev pub register_tensor : TensorDesc → TransitRuntime W E → TransitRuntime W E × TensorHandle
  register_tensor desc r =
      let (registry, handle) = Registry.register_tensor r.registry desc in
      (record r { registry = registry }, handle)

  abbrev pub unregister_tensor : ℕ → TransitRuntime W E → TransitRuntime W E
  unregister_tensor id r = record r { registry = Registry.unregister_tensor r.registry id }

  abbrev pub unregister_handle : TensorHandle → TransitRuntime W E → TransitRuntime W E
  unregister_handle handle r = record r { registry = Registry.unregister_handle r.registry handle }

  abbrev pub begin_recording : TransitRuntime W E → TransitRuntime W E
  begin_recording r = record r { graph = Graph.clear r.graph; recording = true }

  abbrev spend_recording : ℕ → TransitRuntime W E → TransitRuntime W E
  spend_recording elapsed r = record r {
    stats = record r.stats { record_ns = add64 r.stats.record_ns elapsed };
  }

  unfoldable pub record_kernel : ℕ → KernelEvent → TransitRuntime W E → TransitRuntime W E × Bool
  record_kernel elapsed kernel r =
      let (graph, ok) = Graph.record_kernel r.graph kernel in
      if r.recording then (spend_recording elapsed (record r { graph = graph }), ok) else (r, false)

  unfoldable pub record_use : ℕ → TensorUse → TransitRuntime W E → TransitRuntime W E × Bool
  record_use elapsed use_of r =
      let (graph, ok) = Graph.record_use r.graph use_of in
      if r.recording then (spend_recording elapsed (record r { graph = graph }), ok) else (r, false)

  unfoldable pub end_recording : Bool → TransitRuntime W E → TransitRuntime W E
  end_recording cyclic r =
      invalidate_plan graph_changed
        (record r { recording = false; graph = build r.registry (set_cyclic r.graph cyclic) })

  unfoldable pub make_key : TransitRuntime W E → RuntimeState → PlanKey
  make_key r state = record {
    registry_epoch = r.registry.epoch;
    graph_digest = digest_graph r.graph;
    active_requests = state.active_requests;
    phase = state.phase;
    device = r.device.device;
    config_digest = r.config_digest;
  }

  abbrev pub input_of : TransitRuntime W E → RuntimeState → PlanInput
  input_of r state = record {
    graph = some r.graph;
    registry = some r.registry;
    device = r.device;
    runtime = state;
  }

  -- The plan that a compile leaves, finalized.
  unfoldable pub planned : TransitRuntime W E → RuntimeState → TransitPlan W
  planned r state = indexed (built r.planner (input_of r state))

module _ {W : Type 0} {E : Type 0} ⦃x : ITransitExecutor W E⦄ where
  -- A call of the executor where there is one.
  abbrev pub on_executor : (E → E) → TransitRuntime W E → TransitRuntime W E
  on_executor f r = record r { executor = on_some f r.executor }

  unfoldable pub set_executor : Option E → TransitRuntime W E → TransitRuntime W E
  set_executor executor r =
      let changed : TransitRuntime W E = record r { executor = executor } in
      if r.have_plan then on_executor (x.set_plan (some r.plan)) changed else changed

  unfoldable pub recompile : ℕ → RuntimeState → TransitRuntime W E → TransitRuntime W E
  recompile elapsed state r = on_executor (x.set_plan (some (planned r state))) (record r {
    plan = planned r state;
    key = make_key r state;
    have_plan = true;
    stats = record r.stats {
      compiles = add64 r.stats.compiles 1;
      compile_ns = add64 r.stats.compile_ns elapsed;
    };
  })

  unfoldable pub compile : ℕ → RuntimeState → TransitRuntime W E → TransitRuntime W E
  compile elapsed state r =
      let key = make_key r state in
      let reason = if r.have_plan then reason_for key r.key else first_compile in
      let reused : TransitRuntime W E = record r {
        stats = record r.stats { plan_reuses = add64 r.stats.plan_reuses 1 };
      } in
      let compiled =
        recompile elapsed state (record r { stats = record r.stats { last_reason = reason } }) in
      if r.have_plan && same_key key r.key then reused else compiled

  abbrev pub begin_step : TransitRuntime W E → TransitRuntime W E
  begin_step r =
      on_executor x.begin_step
        (record r { stats = record r.stats { steps = add64 r.stats.steps 1 } })

  abbrev pub before_kernel : ℕ → ℕ → TransitRuntime W E → TransitRuntime W E
  before_kernel elapsed kernel r = on_executor (x.before_kernel elapsed kernel) r

  abbrev pub after_kernel : ℕ → ℕ → TransitRuntime W E → TransitRuntime W E
  after_kernel elapsed kernel r = on_executor (x.after_kernel elapsed kernel) r

  abbrev pub end_step : TransitRuntime W E → TransitRuntime W E
  end_step r = on_executor x.end_step r

  abbrev pub reset_stats : TransitRuntime W E → TransitRuntime W E
  reset_stats r = on_executor x.reset_stats (record r { stats = no_runtime_stats })

  unfoldable pub reset : TransitRuntime W E → TransitRuntime W E
  reset r =
      on_executor (λ e. x.reset_stats (x.set_plan none e))
        (record r {
          registry = Registry.clear r.registry;
          graph = Graph.clear r.graph;
          plan = no_plan;
          have_plan = false;
          recording = false;
          key = no_key;
          stats = no_runtime_stats;
        })
