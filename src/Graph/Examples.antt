-- ===== src/Graph/Examples.antt =====
-- One decode step: a kernel that streams the weights and updates the state, and one that reads it.
use recurlocal.Graph.{AccessKind}
use recurlocal.Base.{
  ◌↔◌, ◌&&◌, ◌==◌, ℕ, ◌%◌, ◌≡◌, refl, false, List, [], ◌∷◌, ◌++◌, none, All, length, arith,
  word_size,
}
use recurlocal.Base.Int.{pos}
use recurlocal.Tensor.{read, read_write}
use recurlocal.Tensor.Examples.{weight, state, cache}
use recurlocal.Registry.{Registry, empty, run, registers}
use recurlocal.Graph
use recurlocal.Graph.Build
use recurlocal.Graph.Build.Distance.{length-traffic, slice_sum, inner_edge-reuse_bytes}
use recurlocal.Graph.Build.Removable.{edge_bytes, IsServed, build-removable}
use recurlocal.Graph.Recording
use recurlocal.Graph.Labels.{label-intern_label}

abbrev kernel : ℕ → ℕ → Graph.KernelEvent
kernel id order = record {
  id = id;
  order = order;
  stream_id = pos 0;
  estimated_start_ns = 0;
  estimated_duration_ns = 0;
  label = 0;
}

abbrev use_of : ℕ → AccessKind → Graph.TensorUse
use_of tensor access = record {
  tensor = tensor;
  kernel = 0;
  access = access;
  order = 0;
  stream_id = pos 0;
  bytes = 0;
}

abbrev pub registry : Registry
registry = run empty (registers weight ∷ registers state ∷ registers cache ∷ [])

-- The state is updated, the weights and the cache are read, and the state is read again.
abbrev pub steps : List Recording.Call
steps =
    Recording.records (kernel 10 1) (use_of 2 read_write ∷ [])
    ∷ Recording.records (kernel 11 2) (use_of 1 read ∷ use_of 3 read_write ∷ [])
    ∷ Recording.records (kernel 12 3) (use_of 2 read ∷ [])
    ∷ []

abbrev pub step_graph : Graph.TransitGraph
step_graph = Recording.run Graph.no_graph steps

-- A use of a kernel that was not recorded is refused, and the graph is built.
abbrev built_steps : List Recording.Call
built_steps =
    steps
    ++ (Recording.records_use (record (use_of 3 read) { kernel = 99 })
        ∷ Recording.builds registry
        ∷ [])

abbrev times : Build.Timeline
times = Build.timeline registry step_graph

four_uses : length step_graph.uses ≡ 4
unfolding Recording.run Recording.step Graph.is_empty Graph.record_all Graph.record_kernel
    Graph.last_order Graph.find_kernel Graph.record_uses Graph.record_use
four_uses = refl

run-validate_example :
    let g = Recording.run Graph.no_graph built_steps in
    (Graph.validate g ≡ none)
    ↔ ((Graph.is_empty g.kernels ≡ false) × ((g.built && g.step_traffic == 0) ≡ false))
run-validate_example = Recording.run-validate built_steps

inner_edge-reuse_bytes_example :
    (Build.inner_edge times 2 0 3).reuse_bytes ≡ slice_sum times.traffic 1 3 % word_size
inner_edge-reuse_bytes_example =
    inner_edge-reuse_bytes registry step_graph 2 0 3 (omega arith)
      (omega (arith, length-traffic registry step_graph, four_uses))

build-removable_example :
    ((Build.build registry step_graph).removable
      ≡ edge_bytes (Build.build registry step_graph).edges % word_size)
    × All IsServed (Build.build registry step_graph).edges
build-removable_example = build-removable registry step_graph

label-intern_label_example :
    let (q, index) = Graph.intern_label Graph.no_graph (104 ∷ 105 ∷ []) in
    Graph.label (record q { labels = q.labels ++ (106 ∷ 0 ∷ []) }) index ≡ 104 ∷ 105 ∷ []
label-intern_label_example =
    label-intern_label Graph.no_graph 104 (105 ∷ []) (106 ∷ 0 ∷ []) (omega arith, (omega arith, tt))
      (omega arith)
