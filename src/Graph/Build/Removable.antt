-- ===== src/Graph/Build/Removable.antt =====
-- The reuse edges that `TransitGraph::build` derives, and the removable bytes that it sums up.
use recurlocal.Base.{
  ap, ◌∙◌, ℕ, ◌+◌, ◌%◌, ◌≡◌, refl, Bool, true, false, not, ◌&&◌, ◌==◌, List, [], ◌∷◌, ◌++◌, All,
  All-append, Bool-cases, Option-cases, inl, inr, arith, word_size, length,
}
use recurlocal.Tensor.{TensorDesc, has_read_traffic}
use recurlocal.Registry.{Registry, find}
use recurlocal.Graph.{ℤ, TransitGraph, TransitEdge}
use recurlocal.Graph.Build

abbrev pub edge_bytes : List TransitEdge → ℕ
edge_bytes [] = 0
edge_bytes (e ∷ es) = e.bytes + edge_bytes es

edge_bytes-append :
    (es fs : List TransitEdge) → edge_bytes (es ++ fs) ≡ edge_bytes es + edge_bytes fs
edge_bytes-append [] fs = omega arith
edge_bytes-append (e ∷ es) fs = omega (arith, edge_bytes-append es fs)

-- The consumer of the edge reads.
pub IsServed : TransitEdge → Type 0
IsServed e = has_read_traffic e.consumer_access ≡ true

-- From edges of `before` bytes on, the profile has counted the bytes of the new edges.
Counts : ℕ → Build.Derived → Type 0
Counts before s =
    (edge_bytes s.edges % word_size ≡ (before + s.profile.reused_bytes) % word_size)
    × All IsServed s.edges

module _ (t : Build.Timeline) where
  edge_of-consumer_access :
      (tensor p c : ℕ) (wrap : Bool)
      → (Build.edge_of t tensor p c wrap).consumer_access ≡ (Build.use_at t.uses c).access
  unfolding Build.edge_of Build.inner_edge Build.wrap_edge
  edge_of-consumer_access tensor p c true = refl
  edge_of-consumer_access tensor p c false = refl

  add_edge-Counts :
      (before p c : ℕ) (wrap : Bool) (s : Build.Derived)
      → Counts before s
      → Counts before (Build.add_edge t p c wrap s)
  unfolding Build.add_edge Build.count_edge Counts IsServed
  add_edge-Counts before p c wrap s (sum, served) =
      let edge = Build.edge_of t s.profile.tensor p c wrap in
      elim (Bool-cases (has_read_traffic (Build.use_at t.uses c).access)) [
        | inr skipped ↦ rw skipped (sum, served)
        | inl reads ↦ rw reads (
          omega (arith, sum, edge_bytes-append s.edges (edge ∷ [])),
          All-append IsServed s.edges (edge ∷ []) served
              (ap has_read_traffic (edge_of-consumer_access s.profile.tensor p c wrap) ∙ reads, tt),
        )
      ]

  add_inner-Counts :
      (before : ℕ) (is : List ℕ) (s : Build.Derived)
      → Counts before s
      → Counts before (Build.add_inner t is s)
  unfolding Build.add_inner
  add_inner-Counts before [] s h = h
  add_inner-Counts before (p ∷ []) s h = h
  add_inner-Counts before (p ∷ c ∷ is) s h =
      add_inner-Counts before (c ∷ is) (Build.add_edge t p c false s)
        (add_edge-Counts before p c false s h)

  derive-Counts :
      (cyclic : Bool) (tensor : ℕ) (desc : TensorDesc) (is : List ℕ) (edges : List TransitEdge)
      (deltas : List ℤ)
      → All IsServed edges
      → Counts (edge_bytes edges) (Build.derive t cyclic tensor desc is edges deltas)
  unfolding Build.derive Build.new_profile Counts
  derive-Counts cyclic tensor desc is edges deltas served =
      let start : Build.Derived = record {
        edges = edges;
        deltas = deltas;
        profile = Build.new_profile t tensor desc is;
      } in
      let inner = add_inner-Counts (edge_bytes edges) is start (omega arith, served) in
      elim (Bool-cases (cyclic && not (length is == 0))) [
        | inr straight ↦ rw straight inner
        | inl closed ↦ rw closed (
            add_edge-Counts (edge_bytes edges) (Build.back is) (Build.front is) true
              (Build.add_inner t is start) inner)
      ]

-- The sum over the tensors is the sum over the edges.
Sums : Build.Analysis → Type 0
Sums a = (a.removable ≡ edge_bytes a.edges % word_size) × All IsServed a.edges

analyse-Sums :
    (r : Registry) (t : Build.Timeline) (cyclic : Bool) (groups : List (ℕ × List ℕ))
    (a : Build.Analysis)
    → Sums a
    → Sums (Build.analyse r t cyclic groups a)
unfolding Build.analyse Sums Counts
analyse-Sums r t cyclic [] a h = h
analyse-Sums r t cyclic ((tensor, is) ∷ groups) a (sum, served) =
    elim (Option-cases (find r tensor)) [
      | inl gone ↦ rw (gone, Build.analyse) (analyse-Sums r t cyclic groups a (sum, served))
      | inr (desc, found) ↦
          let (counted, all) = derive-Counts t cyclic tensor desc is a.edges a.deltas served in
          rw (found, Build.analyse)
            (analyse-Sums r t cyclic groups _ (omega (arith, sum, counted), all))
    ]

-- After `build`, whatever was recorded and registered: every edge leads to a use that reads, and
-- `removable_bytes` is the sum of the bytes of the edges, modulo `2 ^ 64`.
pub build-removable :
    (r : Registry) (g : TransitGraph)
    → ((Build.build r g).removable ≡ edge_bytes (Build.build r g).edges % word_size)
      × All IsServed (Build.build r g).edges
unfolding Build.build Sums
build-removable r g =
    analyse-Sums r (Build.timeline r g) g.cyclic _
      (record {
        edges = [];
        deltas = Build.zeros (Build.timeline r g).distinct_orders;
        profiles = [];
        removable = 0;
      })
      (omega arith, tt)
