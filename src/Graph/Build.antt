-- ===== src/Graph/Build.antt =====
-- `TransitGraph::build`: the traffic of each use, the reuse edges, the profiles, and the curve of the
-- live set.
pub mod Distance
pub mod Removable
use Prim.Native.Nat.{pred}
use recurlocal.Base.{
  ◌^◌, ℕ, zero, suc, ◌+◌, ◌-◌, Bool, true, false, not, ◌&&◌, ◌||◌, ◌==◌, ltb, leb, List, [], ◌∷◌,
  ◌++◌, map, Option, none, some, if◌then◌else◌, get_or, get_elem?, set, length, add64, sub64, mul64,
  add32, word_max, min, max,
}
use recurlocal.Base.Int.{ℤ, pos, negsuc, minus_one, ◌+ℤ◌, ◌-ℤ◌}
use recurlocal.Base.Sort.{sort, lower_bound, upper_bound, unique}
use recurlocal.Tensor.{
  TensorRole, AccessKind, read, write, read_write, TensorDesc, use_bytes, has_read_traffic,
}
use recurlocal.Registry.{Registry, find}
use recurlocal.Graph.{
  KernelEvent, TensorUse, TransitEdge, TensorProfile, TransitGraph, no_next_use, is_some,
}

-- A read-modify-write moves its bytes twice.
pub use_traffic : ℕ → AccessKind → ℕ
use_traffic bytes read_write = mul64 bytes 2
use_traffic bytes _ = bytes

pub moved_bytes : TensorUse → TensorDesc → ℕ
moved_bytes u desc = if u.bytes == 0 then use_bytes desc else u.bytes

-- `traffic[i]`, which stays 0 for a use that the registry does not resolve.
pub traffic_of : Registry → TensorUse → ℕ
traffic_of r u = elim (find r u.tensor) [
  | none ↦ 0
  | some desc ↦ use_traffic (moved_bytes u desc) u.access
]

pub unresolved_from : Registry → ℕ → List TensorUse → ℕ
unresolved_from r n [] = n
unresolved_from r n (u ∷ us) =
    unresolved_from r (if is_some (find r u.tensor) then n else add64 n 1) us

-- The running totals from `acc` on: one more than there are numbers.
unfoldable pub prefix_sums : ℕ → List ℕ → List ℕ
prefix_sums acc [] = acc ∷ []
prefix_sums acc (t ∷ ts) = acc ∷ prefix_sums (add64 acc t) ts

-- What the loops of `build` have computed once: the sorted uses, their traffic and its prefix sums,
-- and the orders of the kernels.
pub record Timeline : Type 0 where
  pub kernels : List KernelEvent
  pub uses : List TensorUse
  pub traffic : List ℕ
  pub prefix : List ℕ
  pub kernel_orders : List ℕ
  pub distinct_orders : List ℕ

abbrev pub earlier_use : TensorUse → TensorUse → Bool
earlier_use a b = ltb a.order b.order

unfoldable pub timeline : Registry → TransitGraph → Timeline
timeline r g =
    let uses = sort earlier_use g.uses in
    let orders = sort ltb (map (λ (k : KernelEvent). k.order) g.kernels) in
    record {
      kernels = g.kernels;
      uses = uses;
      traffic = map (traffic_of r) uses;
      prefix = prefix_sums 0 (map (traffic_of r) uses);
      kernel_orders = orders;
      distinct_orders = unique orders;
    }

pub kernels_between : List ℕ → ℕ → ℕ → ℕ
kernels_between orders lo hi =
    if leb hi lo
    then 0
    else let first = upper_bound orders lo in
      let last = lower_bound orders hi in if ltb first last then last - first else 0

pub end_ns : List KernelEvent → ℕ → ℕ
end_ns [] order = 0
end_ns (k ∷ ks) order =
    if k.order == order then add64 k.estimated_start_ns k.estimated_duration_ns else end_ns ks order

pub start_ns : List KernelEvent → ℕ → ℕ
start_ns [] order = 0
start_ns (k ∷ ks) order = if k.order == order then k.estimated_start_ns else start_ns ks order

-- The indices of the resolved uses of each tensor, in the order of its first use.
pub add_index : ℕ → ℕ → List (ℕ × List ℕ) → List (ℕ × List ℕ)
add_index tensor i [] = (tensor, i ∷ []) ∷ []
add_index tensor i ((t, is) ∷ groups) =
    if t == tensor then (t, is ++ (i ∷ [])) ∷ groups else (t, is) ∷ add_index tensor i groups

pub groups_from : Registry → ℕ → List TensorUse → List (ℕ × List ℕ) → List (ℕ × List ℕ)
groups_from r i [] groups = groups
groups_from r i (u ∷ us) groups =
    groups_from r (i + 1) us
      (if is_some (find r u.tensor) then add_index u.tensor i groups else groups)

-- A use by its index; an index of `per_tensor` is always in range.
abbrev no_use : TensorUse
no_use = record { tensor = 0; kernel = 0; access = read; order = 0; stream_id = pos 0; bytes = 0 }

pub use_at : List TensorUse → ℕ → TensorUse
use_at us i = get_or us i no_use

-- The edge from one use of a tensor to the next one, inside the window.
unfoldable pub inner_edge : Timeline → ℕ → ℕ → ℕ → TransitEdge
inner_edge t tensor p c =
    let producer = use_at t.uses p in
    let consumer = use_at t.uses c in
    let p_end = end_ns t.kernels producer.order in
    let c_start = start_ns t.kernels consumer.order in
    record {
      tensor = tensor;
      producer = producer.kernel;
      consumer = consumer.kernel;
      bytes = get_or t.traffic c 0;
      producer_access = producer.access;
      consumer_access = consumer.access;
      reuse_kernels = kernels_between t.kernel_orders producer.order consumer.order;
      reuse_bytes = sub64 (get_or t.prefix c 0) (get_or t.prefix (p + 1) 0);
      reuse_ns = if ltb p_end c_start then c_start - p_end else 0;
    }

-- The edge that crosses the iteration boundary.
unfoldable pub wrap_edge : Timeline → ℕ → ℕ → ℕ → TransitEdge
wrap_edge t tensor p c =
    let producer = use_at t.uses p in
    let consumer = use_at t.uses c in
    let after = sub64 (get_or t.prefix (length t.uses) 0) (get_or t.prefix (p + 1) 0) in
    let before = get_or t.prefix c 0 in
    let total = length t.kernel_orders in
    let inside = kernels_between t.kernel_orders consumer.order producer.order in
    record {
      tensor = tensor;
      producer = producer.kernel;
      consumer = consumer.kernel;
      bytes = get_or t.traffic c 0;
      producer_access = producer.access;
      consumer_access = consumer.access;
      reuse_kernels = if ltb (inside + 1) total then total - inside - 1 else 0;
      reuse_bytes = add64 after before;
      reuse_ns = 0;
    }

unfoldable pub edge_of : Timeline → ℕ → ℕ → ℕ → Bool → TransitEdge
edge_of t tensor p c true = wrap_edge t tensor p c
edge_of t tensor p c false = inner_edge t tensor p c

-- `static_cast<long long>` of a size.
abbrev pub signed64 : ℕ → ℤ
signed64 n = if ltb n (2 ^ 63) then pos n else negsuc (2 ^ 64 - 1 - n)

-- `live_delta[i] += live` and `live_delta[i] -= live` for the bytes `n`. A `long long` that overflows is
-- undefined in the source; the sums are not bounded here.
pub gain : List ℤ → ℕ → ℕ → List ℤ
gain deltas i n = set deltas i (get_or deltas i (pos 0) +ℤ signed64 n)

pub lose : List ℤ → ℕ → ℕ → List ℤ
lose deltas i n = set deltas i (get_or deltas i (pos 0) -ℤ signed64 n)

-- The interval over which an edge keeps `n` bytes live.
pub keep_live : List ℤ → ℕ → ℕ → ℕ → ℕ → Bool → List ℤ
keep_live deltas points n p c false = if ltb p c then lose (gain deltas p n) c n else deltas
keep_live deltas points n p c true =
    let tail = lose (gain deltas p n) points n in if ltb 0 c then lose (gain tail 0 n) c n else tail

-- The profile after one more edge.
unfoldable pub count_edge : TensorProfile → TransitEdge → TensorProfile
count_edge f e = record f {
  reuse_count = add32 f.reuse_count 1;
  reused_bytes = add64 f.reused_bytes e.bytes;
  min_reuse_kernels = min f.min_reuse_kernels e.reuse_kernels;
  min_reuse_bytes = min f.min_reuse_bytes e.reuse_bytes;
  min_reuse_ns = if e.reuse_ns == 0 then f.min_reuse_ns else min f.min_reuse_ns e.reuse_ns;
  max_reuse_bytes = max f.max_reuse_bytes e.reuse_bytes;
}

pub record Derived : Type 0 where
  pub edges : List TransitEdge
  pub deltas : List ℤ
  pub profile : TensorProfile

-- `add_edge`: only a read can be served from cache.
unfoldable pub add_edge : Timeline → ℕ → ℕ → Bool → Derived → Derived
add_edge t p c wrap s =
    let consumer = use_at t.uses c in
    let edge = edge_of t s.profile.tensor p c wrap in
    if has_read_traffic consumer.access
    then record {
      edges = s.edges ++ (edge ∷ []);
      deltas =
          keep_live s.deltas (length t.distinct_orders) s.profile.bytes
            (lower_bound t.distinct_orders (use_at t.uses p).order)
            (lower_bound t.distinct_orders consumer.order) wrap;
      profile = count_edge s.profile edge;
    }
    else s

-- The edges between consecutive uses.
unfoldable pub add_inner : Timeline → List ℕ → Derived → Derived
add_inner t [] s = s
add_inner t (p ∷ []) s = s
add_inner t (p ∷ c ∷ is) s = add_inner t (c ∷ is) (add_edge t p c false s)

abbrev pub front : List ℕ → ℕ
front [] = 0
front (i ∷ is) = i

abbrev pub back : List ℕ → ℕ
back [] = 0
back (i ∷ []) = i
back (i ∷ j ∷ is) = back (j ∷ is)

pub read_uses : Timeline → ℕ → List ℕ → ℕ
read_uses t n [] = n
read_uses t n (k ∷ is) =
    read_uses t (if has_read_traffic (use_at t.uses k).access then add32 n 1 else n) is

unfoldable pub new_profile : Timeline → ℕ → TensorDesc → List ℕ → TensorProfile
new_profile t tensor desc is = record {
  tensor = tensor;
  role = desc.role;
  bytes = desc.bytes;
  uses = add32 (length is) 0;
  read_uses = read_uses t 0 is;
  reuse_count = 0;
  reused_bytes = 0;
  min_reuse_kernels = no_next_use;
  min_reuse_bytes = word_max;
  min_reuse_ns = no_next_use;
  max_reuse_bytes = 0;
  first_order = (use_at t.uses (front is)).order;
  last_order = (use_at t.uses (back is)).order;
  mutable_data = desc.mutable_data;
  request_local = desc.request_local;
  request_id = desc.request_id;
}

-- The edges and the profile of one tensor.
unfoldable pub derive :
    Timeline → Bool → ℕ → TensorDesc → List ℕ → List TransitEdge → List ℤ → Derived
derive t cyclic tensor desc is edges deltas =
    let inner =
      add_inner t is
        (record { edges = edges; deltas = deltas; profile = new_profile t tensor desc is }) in
    if cyclic && not (length is == 0) then add_edge t (back is) (front is) true inner else inner

-- A profile without reuse has no smallest distance, also when the count of edges wrapped to 0.
pub settled : TensorProfile → TensorProfile
settled f =
    if f.reuse_count == 0
    then record f { min_reuse_bytes = word_max; min_reuse_kernels = no_next_use }
    else f

pub record Analysis : Type 0 where
  pub edges : List TransitEdge
  pub deltas : List ℤ
  pub profiles : List TensorProfile
  pub removable : ℕ

-- The loop over the tensors.
unfoldable pub analyse : Registry → Timeline → Bool → List (ℕ × List ℕ) → Analysis → Analysis
analyse r t cyclic [] a = a
analyse r t cyclic ((tensor, is) ∷ groups) a = analyse r t cyclic groups (elim (find r tensor) [
  | none ↦ a
  | some desc ↦
      let s = derive t cyclic tensor desc is a.edges a.deltas in
      record {
        edges = s.edges;
        deltas = s.deltas;
        profiles = a.profiles ++ (settled s.profile ∷ []);
        removable = add64 a.removable s.profile.reused_bytes;
      }
])

abbrev pub at_least_zero : ℤ → ℕ
at_least_zero (pos n) = n
at_least_zero (negsuc n) = 0

-- `live_values_`: the running sum of the deltas, cut off at 0.
pub live_curve : ℤ → List ℕ → List ℤ → List ℕ
live_curve running [] deltas = []
live_curve running (o ∷ os) [] = at_least_zero running ∷ live_curve running os []
live_curve running (o ∷ os) (d ∷ ds) =
    let now = running +ℤ d in at_least_zero now ∷ live_curve now os ds

pub largest : ℕ → List ℕ → ℕ
largest m [] = m
largest m (x ∷ xs) = largest (max m x) xs

pub sum64 : ℕ → List ℕ → ℕ
sum64 acc [] = acc
sum64 acc (t ∷ ts) = sum64 (add64 acc t) ts

abbrev pub zeros : List ℕ → List ℤ
zeros [] = pos 0 ∷ []
zeros (o ∷ os) = pos 0 ∷ zeros os

unfoldable pub build : Registry → TransitGraph → TransitGraph
build r g =
    let t = timeline r g in
    let a =
      analyse r t g.cyclic (groups_from r 0 t.uses [])
        (record { edges = []; deltas = zeros t.distinct_orders; profiles = []; removable = 0 }) in
    let live = live_curve (pos 0) t.distinct_orders a.deltas in
    record g {
      uses = t.uses;
      edges = a.edges;
      profiles = a.profiles;
      live_orders = t.distinct_orders;
      live_values = live;
      step_traffic = sum64 0 t.traffic;
      removable = a.removable;
      peak_live = largest 0 live;
      unresolved_uses = unresolved_from r 0 t.uses;
      built = true;
    }
