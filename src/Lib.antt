-- ===== src/Lib.antt =====
-- TensorTransit, the residency planner of recurlocal: a model of its C++ core.
--
-- A runtime registers the tensors that a decode step touches, records the kernels of the step with
-- their uses, and builds from them a graph of reuse edges. A planner turns the graph, under a budget of
-- persisting cache, into a plan of actions on kernels, and the plan is indexed for the executor.
--
-- Base holds what the parts share: tests on numbers, lists (Base/Lists, Base/Sort, Base/Filter), the
-- signed integers of Base/Int and the 64-bit words of Base/Words, where what may wrap is written out.
-- Double is the floating point arithmetic of the source as a parameter: a type with operations and no
-- laws, so that what is shown of a planner holds for any of them; Fixed runs the code.
--
-- Tensor.antt: include/tensortransit/tensor.h.
-- Registry.antt: src/tensor_registry.cpp, `TensorRegistry`, with one function for each operation, and
-- `step` and `run` for calls in sequence.
-- Device.antt: include/tensortransit/device.h and src/device.cpp.
-- Graph.antt: include/tensortransit/graph.h and src/transit_graph.cpp, with recording, labels and
-- queries; `TransitGraph::build` is in Graph/Build.antt.
-- `TransitPlan`, of include/tensortransit/plan.h and src/plan.cpp, is in Plan.antt; its `validate` is
-- in Plan/Validate.antt, and `finalize` and the lookups are in Plan/Index.antt.
-- Planner.antt: include/tensortransit/planner.h and src/planner_registry.cpp, the configuration and its
-- presets; below it Candidates, Cost, Emit, Streaming, Windows and Finish are planners/common.cpp, and
-- Admit and Budgeted are planners/budgeted/budgeted_planner.cpp.
-- Planner/Greedy, Planner/Concurrency and Planner/RecurrentV0 are the other planners of planners/, and
-- `make_planner`. `TransitPlan::rebind` is in Plan/Rebind.antt, its digest in Plan/Digest.antt.
-- Ceiling.antt: src/ceiling.cpp.
-- Recurrent.antt: include/tensortransit/recurrent.h, with src/recurrent_planner.cpp below it: Saturating
-- (footprints), Budget (set-asides), Layers (schedules and the walk over layers), Window (which state
-- and how far), Quota and LayerPlans (`plan_for_layer`) and Names.
-- Executor.antt: include/tensortransit/executor.h, an interface of operations; Executor/Recording.antt
-- fills it with `RecordingExecutor` of src/executor.cpp.
-- Runtime.antt: include/tensortransit/runtime.h and src/runtime.cpp, `TransitRuntime` over any executor
-- of the interface; Runtime/InForce has its operations as a step relation. A duration measured by the
-- clock, the bytes of a configuration in memory and the planner found for a name are arguments.
-- Trace.antt: tokens, strings and the device table of src/trace.cpp; Trace/Json.antt is its JSON reader,
-- with `strtod` as an argument, Trace/Tables the name tables, Trace/ReadPlan and Trace/ReadTrace
-- the readers.
--
-- State is passed explicitly: an operation takes the state and returns the next one, with what the call
-- returns. A pointer into a vector is a position in a list, a null pointer is 0 or `none`. Loops are
-- structural recursion over the lists that the source iterates over. The JSON reader alone is on fuel,
-- one unit more than the text has bytes: every value takes at least one byte. The source recurs on its
-- stack there, which has no bound here. Sizes and counters are
-- naturals, cut off modulo 2 ^ 64 where the source adds, subtracts or multiplies and may wrap. The
-- offsets of a plan's index, 32-bit in the source, are naturals, which is the same for a plan of fewer
-- than 2 ^ 32 actions. `std::sort` keeps equal elements in order here.
--
-- An executor holds the plan that it was given as a value: the runtime changes its plan only in
-- `recompile` and `reset`, and both tell the attached executor. Two profiles of a device are compared
-- field by field, without padding. The hash takes the bytes of a value lowest first.
--
-- Not modelled: the writing of traces, and the other JSON and text output, which print; opening files;
-- the name tables that neither the recurrent planner nor the readers look in; CUDA, adapters, tools and
-- scripts, which call other programs or the driver.
pub mod Base
pub mod Tensor
pub mod Registry
pub mod Double
pub mod Device
pub mod Plan
pub mod Graph
pub mod Planner
pub mod Ceiling
pub mod Recurrent
pub mod Executor
pub mod Runtime
pub mod Trace
