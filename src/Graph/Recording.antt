-- ===== src/Graph/Recording.antt =====
-- What the recording calls of src/transit_graph.cpp keep, and what `validate` then finds.
use recurlocal.Base.{
  Bool, All, ◌↔◌, ◌==◌, ◌&&◌, ◌||◌, ℕ, ◌≡◌, refl, inl, inr, true, false, List, [], ◌∷◌, ◌++◌, none,
  Bool-cases, Option-cases, arith,
}
use recurlocal.Base.Sort.{sort, All-sort}
use recurlocal.Registry.{Registry}
use recurlocal.Graph
use recurlocal.Graph.Build

-- The kernels are in order, and every use is of a kernel.
pub IsRecorded : Graph.TransitGraph → Type 0
IsRecorded g = (Graph.is_monotonic g.kernels ≡ true) × (Graph.all_placed g.kernels g.uses ≡ true)

is_monotonic-append :
    (ks : List Graph.KernelEvent) (k : Graph.KernelEvent)
    → Graph.is_monotonic ks ≡ true
    → Graph.goes_back (Graph.last_order ks) k.order ≡ false
    → Graph.is_monotonic (ks ++ (k ∷ [])) ≡ true
unfolding Graph.is_monotonic Graph.last_order
is_monotonic-append [] k m h = refl
is_monotonic-append (a ∷ []) k m h = ground arith
is_monotonic-append (a ∷ b ∷ ks) k m h = ground (arith, is_monotonic-append (b ∷ ks) k)

is_some-find_kernel-append :
    (id : ℕ) (ks : List Graph.KernelEvent) (k : Graph.KernelEvent)
    → Graph.is_some (Graph.find_kernel id ks) ≡ true
    → Graph.is_some (Graph.find_kernel id (ks ++ (k ∷ []))) ≡ true
unfolding Graph.find_kernel
is_some-find_kernel-append id [] k h = cc
is_some-find_kernel-append id (a ∷ ks) k h = ground (arith, is_some-find_kernel-append id ks k)

all_placed-append_kernel :
    (ks : List Graph.KernelEvent) (k : Graph.KernelEvent) (us : List Graph.TensorUse)
    → Graph.all_placed ks us ≡ true
    → Graph.all_placed (ks ++ (k ∷ [])) us ≡ true
unfolding Graph.all_placed
all_placed-append_kernel ks k [] h = refl
all_placed-append_kernel ks k (u ∷ us) h =
    ground (arith, is_some-find_kernel-append u.kernel ks k, all_placed-append_kernel ks k us)

all_placed-append_use :
    (ks : List Graph.KernelEvent) (us : List Graph.TensorUse) (u : Graph.TensorUse)
    → Graph.all_placed ks us ≡ true
    → Graph.is_some (Graph.find_kernel u.kernel ks) ≡ true
    → Graph.all_placed ks (us ++ (u ∷ [])) ≡ true
unfolding Graph.all_placed
all_placed-append_use ks [] u h e = ground (arith, e)
all_placed-append_use ks (v ∷ us) u h e = ground (arith, all_placed-append_use ks us u)

pub record_kernel-IsRecorded :
    (g : Graph.TransitGraph) (k : Graph.KernelEvent)
    → IsRecorded g
    → IsRecorded ((Graph.record_kernel g k).0)
unfolding IsRecorded Graph.record_kernel
record_kernel-IsRecorded g k (m, placed) =
    let back = Graph.goes_back (Graph.last_order g.kernels) k.order in
    let known = Graph.is_some (Graph.find_kernel k.id g.kernels) in
    elim (Bool-cases (k.id == 0 || back || known)) [
      | inl bad ↦ rw bad (m, placed)
      | inr good ↦ rw good (
        is_monotonic-append g.kernels k m (ground (arith, good)),
        all_placed-append_kernel g.kernels k g.uses placed,
      )
    ]

pub record_use-IsRecorded :
    (g : Graph.TransitGraph) (u : Graph.TensorUse)
    → IsRecorded g
    → IsRecorded ((Graph.record_use g u).0)
unfolding IsRecorded Graph.record_use
record_use-IsRecorded g u (m, placed) = elim (Bool-cases (u.tensor == 0)) [
  | inl bad ↦ rw bad (m, placed)
  | inr good ↦ elim (Option-cases (Graph.find_kernel u.kernel g.kernels)) [
    | inl missing ↦ rw (good, missing) (m, placed)
    | inr (k, found) ↦
        rw (good, found)
          (
            m,
            all_placed-append_use g.kernels g.uses
                (record u { order = k.order; stream_id = k.stream_id }) placed (rw found refl),
          )
  ]
]

record_uses-IsRecorded :
    (g : Graph.TransitGraph) (kernel : ℕ) (us : List Graph.TensorUse)
    → IsRecorded g
    → IsRecorded ((Graph.record_uses g kernel us).0)
unfolding Graph.record_uses
record_uses-IsRecorded g kernel [] h = h
record_uses-IsRecorded g kernel (u ∷ us) h =
    let placed : Graph.TensorUse = record u { kernel = kernel } in
    let kept = record_use-IsRecorded g placed h in
    elim (Bool-cases ((Graph.record_use g placed).1)) [
      | inl ok ↦ rw ok (record_uses-IsRecorded ((Graph.record_use g placed).0) kernel us kept)
      | inr refused ↦ rw refused kept
    ]

pub record_all-IsRecorded :
    (g : Graph.TransitGraph) (k : Graph.KernelEvent) (us : List Graph.TensorUse)
    → IsRecorded g
    → IsRecorded ((Graph.record_all g k us).0)
unfolding Graph.record_all
record_all-IsRecorded g k us h =
    let kept = record_kernel-IsRecorded g k h in
    elim (Bool-cases ((Graph.record_kernel g k).1)) [
      | inl ok ↦ rw ok (record_uses-IsRecorded ((Graph.record_kernel g k).0) k.id us kept)
      | inr refused ↦ rw refused kept
    ]

All_of_all_placed :
    (ks : List Graph.KernelEvent) (us : List Graph.TensorUse)
    → Graph.all_placed ks us ≡ true
    → All (λ u. Graph.is_some (Graph.find_kernel u.kernel ks) ≡ true) us
unfolding Graph.all_placed
All_of_all_placed ks [] h = tt
All_of_all_placed ks (u ∷ us) h =
    let both = h in (ground (arith, both), All_of_all_placed ks us (ground (arith, both)))

all_placed_of_All :
    (ks : List Graph.KernelEvent) (us : List Graph.TensorUse)
    → All (λ u. Graph.is_some (Graph.find_kernel u.kernel ks) ≡ true) us
    → Graph.all_placed ks us ≡ true
unfolding Graph.all_placed
all_placed_of_All ks [] h = refl
all_placed_of_All ks (u ∷ us) (h, hs) = rw (h, all_placed_of_All ks us hs) refl

-- A graph in order that `validate` accepts.
accepted :
    (g : Graph.TransitGraph)
    → Graph.is_monotonic g.kernels ≡ true
    → Graph.all_placed g.kernels g.uses ≡ true
    → Graph.validate g ≡ none
    → (Graph.is_empty g.kernels ≡ false) × ((g.built && g.step_traffic == 0) ≡ false)
unfolding Graph.validate
accepted g m placed fine = ground (arith, m, placed, fine)

build-IsRecorded :
    (r : Registry) (g : Graph.TransitGraph) → IsRecorded g → IsRecorded (Build.build r g)
unfolding IsRecorded Build.build Build.timeline
build-IsRecorded r g (m, placed) = (
  m,
  all_placed_of_All g.kernels (sort Build.earlier_use g.uses) (
      All-sort (λ u. Graph.is_some (Graph.find_kernel u.kernel g.kernels) ≡ true) Build.earlier_use
        g.uses (All_of_all_placed g.kernels g.uses placed)),
)

-- Every call that can change a graph.
pub data Call : Type 0 where
  records_kernel : Graph.KernelEvent → Call
  records_use : Graph.TensorUse → Call
  records : Graph.KernelEvent → List Graph.TensorUse → Call
  interns : List ℕ → Call
  sets_cyclic : Bool → Call
  builds : Registry → Call
  clears : Call

unfoldable pub step : Graph.TransitGraph → Call → Graph.TransitGraph
step g (records_kernel k) = (Graph.record_kernel g k).0
step g (records_use u) = (Graph.record_use g u).0
step g (records k us) = (Graph.record_all g k us).0
step g (interns text) = (Graph.intern_label g text).0
step g (sets_cyclic b) = Graph.set_cyclic g b
step g (builds r) = Build.build r g
step g clears = Graph.clear g

unfoldable pub run : Graph.TransitGraph → List Call → Graph.TransitGraph
run g [] = g
run g (c ∷ cs) = run (step g c) cs

step-IsRecorded : (g : Graph.TransitGraph) (c : Call) → IsRecorded g → IsRecorded (step g c)
unfolding step IsRecorded Graph.intern_label Graph.set_cyclic Graph.clear Graph.is_monotonic
    Graph.all_placed
step-IsRecorded g (records_kernel k) h = record_kernel-IsRecorded g k h
step-IsRecorded g (records_use u) h = record_use-IsRecorded g u h
step-IsRecorded g (records k us) h = record_all-IsRecorded g k us h
step-IsRecorded g (interns []) h = h
step-IsRecorded g (interns (x ∷ text)) h = h
step-IsRecorded g (sets_cyclic true) h = h
step-IsRecorded g (sets_cyclic false) h = h
step-IsRecorded g (builds r) h = build-IsRecorded r g h
step-IsRecorded g clears h = (refl, refl)

run-IsRecorded : (g : Graph.TransitGraph) (cs : List Call) → IsRecorded g → IsRecorded (run g cs)
unfolding run
run-IsRecorded g [] h = h
run-IsRecorded g (c ∷ cs) h = run-IsRecorded (step g c) cs (step-IsRecorded g c h)

-- From the empty graph, after any calls in any order, with whatever the graph refuses: `validate` finds
-- nothing wrong exactly when the graph has a kernel and is not built to a step that moves no bytes. So
-- the kernels are never out of order, and no use names a kernel that was never recorded.
pub run-validate :
    (cs : List Call)
    → let g = run Graph.no_graph cs in
      (Graph.validate g ≡ none)
      ↔ ((Graph.is_empty g.kernels ≡ false) × ((g.built && g.step_traffic == 0) ≡ false))
unfolding Graph.validate IsRecorded Graph.is_monotonic Graph.all_placed
run-validate cs =
    let g = run Graph.no_graph cs in
    let (m, placed) = run-IsRecorded Graph.no_graph cs (refl, refl) in
    (
      λ fine. accepted g m placed fine,
      λ (some_kernel, moves). rw (some_kernel, m, placed, moves) refl,
    )
