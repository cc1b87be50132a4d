-- ===== src/Runtime/Examples.antt =====
-- A runtime with the budgeted planner in fixed point and the recording executor.
use recurlocal.Base.{
  ◌⊎◌, ℕ, ◌+◌, ◌%◌, ◌≡◌, refl, true, none, some, List, [], ◌∷◌, arith, length, inl, word_size,
}
use recurlocal.Double.{Fixed, fixed_double}
use recurlocal.Tensor.Examples.{weight, state}
use recurlocal.Registry.{run, registers, Call}
use recurlocal.Device.{RuntimeState, DeviceProfile}
use recurlocal.Planner.Examples.{config, device, runtime}
use recurlocal.Planner.Budgeted.{build_plan}
use recurlocal.Executor.Recording.{RecordingExecutor, recording}
use recurlocal.Executor.Recording
use recurlocal.Runtime
use recurlocal.Runtime.{
  TransitRuntime, ITransitPlanner, compile, recompile, planned, end_recording, set_planner,
  set_device_profile, set_executor, register_tensor, fresh, first_compile,
}
use recurlocal.Runtime.Cache.{in_force, compile_each, with_reuses, compile_each-compile}
use recurlocal.Runtime.Current.{
  after_calls, compile-after_calls, compile-recompile, compile-last_reason,
}
use recurlocal.Runtime.InForce.{
  IsInForce, Reaches, here, later, registers, compiles, begins_step, enters_kernel,
  Reaches-IsInForce, recording-IsTransitExecutor,
}

abbrev planner : ITransitPlanner Fixed
planner = record { build_plan = build_plan ⦃d = fixed_double⦄ config; name = "budgeted" }

abbrev start : TransitRuntime Fixed (RecordingExecutor Fixed)
start = record (fresh device planner) { executor = some Recording.fresh }

compile_each-compile_example :
    compile_each (7 ∷ 8 ∷ []) runtime (compile 6 runtime start)
    ≡ with_reuses
        (((compile 6 runtime start).stats.plan_reuses + length {A = ℕ} (7 ∷ 8 ∷ [])) % word_size)
        (compile 6 runtime start)
compile_each-compile_example = compile_each-compile 6 (7 ∷ 8 ∷ []) runtime start (omega arith)

abbrev calls : List Call
calls = Call.registers weight ∷ Call.registers state ∷ Call.unregisters 1 ∷ []

compile-after_calls_example :
    ((compile 6 runtime (after_calls (compile 5 runtime start) calls)).plan
      ≡ planned (after_calls start calls) runtime)
    ⊎ ((in_force start runtime ≡ true)
        × (run start.registry calls ≡ start.registry)
        × ((compile 6 runtime (after_calls (compile 5 runtime start) calls)).plan ≡ start.plan))
compile-after_calls_example =
    compile-after_calls 5 6 runtime start calls (omega arith) (omega arith)

-- The driver granted a budget after the first compile, and the plan stays the one made without it.
abbrev granted : RuntimeState
granted = record runtime { granted_budget_bytes = 300 }

compile-recompile_example :
    (compile 6 granted (recompile 5 runtime start)).plan ≡ planned start runtime
compile-recompile_example = compile-recompile 5 6 runtime granted start refl refl

abbrev other_device : DeviceProfile
other_device = record device { l2_bytes = 2000 }

compile-last_reason_example :
    ((compile 6 runtime (end_recording true start)).stats.last_reason ≡ first_compile)
    × ((compile 6 runtime (set_planner none start)).stats.last_reason ≡ first_compile)
    × ((compile 6 runtime (set_device_profile other_device start)).stats.last_reason
        ≡ first_compile)
compile-last_reason_example = compile-last_reason 6 runtime start true none other_device refl

-- A tensor is registered, a plan compiled, a step begun and a kernel entered.
abbrev compiled : TransitRuntime Fixed (RecordingExecutor Fixed)
compiled = compile 6 runtime (register_tensor state start).0

abbrev reached :
    Reaches Fixed
      (RecordingExecutor Fixed)
      recording
      start
      (Runtime.before_kernel 5 2 (Runtime.begin_step compiled))
reached =
    later (later (later (later here (registers state)) (compiles 6 runtime)) begins_step)
      (enters_kernel 5 2)

Reaches-IsInForce_example :
    IsInForce recording (Runtime.before_kernel 5 2 (Runtime.begin_step compiled))
Reaches-IsInForce_example =
    Reaches-IsInForce recording start (Runtime.before_kernel 5 2 (Runtime.begin_step compiled))
      (recording-IsTransitExecutor Fixed) (inl refl) reached
