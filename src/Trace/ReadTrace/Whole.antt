-- ===== src/Trace/ReadTrace/Whole.antt =====
-- `read_trace` of src/trace.cpp, from the text to the built graph.
use recurlocal.Base.{ℕ, ◌-◌, Bool, true, Option, none, some, List, [], ◌==◌, if◌then◌else◌, length}
use recurlocal.Base.Int.{ℤ}
use recurlocal.Double.{Double}
use recurlocal.Registry
use recurlocal.Graph
use recurlocal.Graph.Build.{build}
use recurlocal.Trace.{Read, done, refused, out_of_fuel}
use recurlocal.Trace.Json
use recurlocal.Trace.ReadPlan.{as_u64, find_named, elements_at}
use recurlocal.Trace.ReadTrace.{
  TraceMetadata, TraceProblem, other_schema, syntax, not_an_object, no_events, metadata_of, Tensors,
  read_tensors, read_events,
}

-- The registry, the graph and the metadata, as far as the reader came; no metadata is a null pointer.
pub record TraceState : Type 0 where
  pub registry : Registry.Registry
  pub graph : Graph.TransitGraph
  pub meta : Option TraceMetadata

abbrev pub cyclic_of : Option TraceMetadata → Bool
cyclic_of none = true
cyclic_of (some meta) = meta.cyclic

unfoldable pub built_after : TraceState × Option TraceProblem → TraceState × Option TraceProblem
built_after (s, some problem) = (s, some problem)
built_after (s, none) =
    (record s { graph = build s.registry (Graph.set_cyclic s.graph (cyclic_of s.meta)) }, none)

unfoldable pub no_tensors : Registry.Registry → Tensors
no_tensors r = record { registry = r; ids = []; synthetic = 4096 }

module _ {W : Type 0} ⦃d : Double W⦄ where
  unfoldable pub with_events :
      List (ℕ × ℕ) → TraceState → Option (Json.Value W) → TraceState × Option TraceProblem
  with_events ids s (some (Json.array events)) =
      let (q, problem) = read_events ids 0 events s.graph in
      built_after (record s { graph = q }, problem)
  with_events ids s v = (s, some no_events)

  unfoldable pub with_tensors :
      Json.Value W → TraceState → Tensors × Option TraceProblem → TraceState × Option TraceProblem
  with_tensors root s (t, some problem) = (record s { registry = t.registry }, some problem)
  with_tensors root s (t, none) =
      with_events t.ids (record s { registry = t.registry }) (find_named root "events")

  unfoldable pub described : Json.Value W → Option TraceMetadata → Option TraceMetadata
  described root none = none
  described root (some meta) = some (metadata_of root meta)

  -- The state that the tensors are read into: all cleared, the metadata read.
  unfoldable pub fresh : Json.Value W → TraceState → TraceState
  fresh root s = record {
    registry = Registry.clear s.registry;
    graph = Graph.clear s.graph;
    meta = described root s.meta;
  }

  -- The document with its schema's version: nothing is cleared for another version.
  unfoldable pub trace_of :
      (W → ℤ) → TraceState → Json.Value W → Option (Json.Value W) → TraceState × Option TraceProblem
  trace_of to_int s root none = (s, some (other_schema 0))
  trace_of to_int s root (some version) =
      let start = fresh root s in
      let tensors = read_tensors to_int (elements_at root "tensors") (no_tensors start.registry) in
      if as_u64 version == 1
      then with_tensors root start tensors
      else (s, some (other_schema (as_u64 version)))

  unfoldable pub trace_of_root :
      (W → ℤ) → TraceState → Json.Value W → TraceState × Option TraceProblem
  trace_of_root to_int s (Json.object o) =
      trace_of to_int s (Json.object o) (find_named (Json.object o) "schema_version")
  trace_of_root to_int s v = (s, some not_an_object)

  unfoldable pub trace_of_answer :
      (W → ℤ) → TraceState → ℕ → Read (Json.Value W) → TraceState × Option TraceProblem
  trace_of_answer to_int s size (done v rest) = trace_of_root to_int s v
  trace_of_answer to_int s size (refused message rest) =
      (s, some (syntax message (size - length rest)))
  trace_of_answer to_int s size out_of_fuel = (s, some (syntax "" size))

  -- `read_trace`, which returns true exactly when there is no problem.
  unfoldable pub read_trace :
      (W → ℤ) → (List ℕ → W) → List ℕ → TraceState → TraceState × Option TraceProblem
  read_trace to_int strtod json s = trace_of_answer to_int s (length json) (Json.parse strtod json)
