-- ===== src/Graph.antt =====
-- include/tensortransit/graph.h and src/transit_graph.cpp: the recorded kernels and uses, the edges
-- and profiles derived from them, and the queries. A label is a list of character codes.
pub mod Build
pub mod Recording
pub mod Labels
pub mod Examples
use Prim.Native.Nat.{pred}
use Prim.Native.String.{String}
use recurlocal.Base.{
  ℕ, zero, suc, ◌+◌, ◌%◌, ◌^◌, Bool, true, false, not, ◌&&◌, ◌||◌, ◌==◌, ltb, leb, List, [], ◌∷◌,
  ◌++◌, Option, none, some, if◌then◌else◌, get_or, length, drop, any, add64, word_max,
}
use recurlocal.Base.Int.{ℤ, minus_one}
use recurlocal.Base.Sort.{upper_bound}
use recurlocal.Tensor.{TensorRole, role_eq, AccessKind}

pub record KernelEvent : Type 0 where
  pub id : ℕ
  pub order : ℕ
  pub stream_id : ℤ
  pub estimated_start_ns : ℕ
  pub estimated_duration_ns : ℕ
  pub label : ℕ

pub record TensorUse : Type 0 where
  pub tensor : ℕ
  pub kernel : ℕ
  pub access : AccessKind
  pub order : ℕ
  pub stream_id : ℤ
  pub bytes : ℕ

pub data ReuseMetric : Type 0 where
  ordinal bytes time : ReuseMetric

-- `kNoNextUse`.
abbrev pub no_next_use : ℕ
no_next_use = word_max

pub record TransitEdge : Type 0 where
  pub tensor : ℕ
  pub producer : ℕ
  pub consumer : ℕ
  pub bytes : ℕ
  pub producer_access : AccessKind
  pub consumer_access : AccessKind
  pub reuse_kernels : ℕ
  pub reuse_bytes : ℕ
  pub reuse_ns : ℕ

abbrev pub distance : TransitEdge → ReuseMetric → ℕ
distance e ordinal = e.reuse_kernels
distance e bytes = e.reuse_bytes
distance e time = e.reuse_ns

pub record TensorProfile : Type 0 where
  pub tensor : ℕ
  pub role : TensorRole
  pub bytes : ℕ
  pub uses : ℕ
  pub read_uses : ℕ
  pub reuse_count : ℕ
  pub reused_bytes : ℕ
  pub min_reuse_kernels : ℕ
  pub min_reuse_bytes : ℕ
  pub min_reuse_ns : ℕ
  pub max_reuse_bytes : ℕ
  pub first_order : ℕ
  pub last_order : ℕ
  pub mutable_data : Bool
  pub request_local : Bool
  pub request_id : ℤ

abbrev pub has_reuse : TensorProfile → Bool
has_reuse p = not (p.reuse_count == 0)

pub record TransitGraph : Type 0 where
  pub kernels : List KernelEvent
  pub uses : List TensorUse
  pub edges : List TransitEdge
  pub profiles : List TensorProfile
  pub labels : List ℕ
  pub live_orders : List ℕ
  pub live_values : List ℕ
  pub step_traffic : ℕ
  pub removable : ℕ
  pub peak_live : ℕ
  pub unresolved_uses : ℕ
  pub built : Bool
  pub cyclic : Bool

abbrev pub no_graph : TransitGraph
no_graph = record {
  kernels = [];
  uses = [];
  edges = [];
  profiles = [];
  labels = 0 ∷ [];
  live_orders = [];
  live_values = [];
  step_traffic = 0;
  removable = 0;
  peak_live = 0;
  unresolved_uses = 0;
  built = false;
  cyclic = false;
}

-- `find_kernel`.
unfoldable pub find_kernel : ℕ → List KernelEvent → Option KernelEvent
find_kernel id [] = none
find_kernel id (k ∷ ks) = if k.id == id then some k else find_kernel id ks

unfoldable pub last_order : List KernelEvent → Option ℕ
last_order [] = none
last_order (k ∷ []) = some k.order
last_order (k ∷ j ∷ ks) = last_order (j ∷ ks)

-- The test of `record_kernel` that a kernel does not go back in order.
abbrev pub goes_back : Option ℕ → ℕ → Bool
goes_back none order = false
goes_back (some last) order = ltb order last

abbrev pub is_some {ℓ} : {A : Type ℓ} → Option A → Bool
is_some none = false
is_some (some a) = true

-- The graph after the call, and what the call returns.
unfoldable pub record_kernel : TransitGraph → KernelEvent → TransitGraph × Bool
record_kernel g k =
    if k.id == 0 || goes_back (last_order g.kernels) k.order || is_some (find_kernel k.id g.kernels)
    then (g, false)
    else (record g { kernels = g.kernels ++ (k ∷ []); built = false }, true)

unfoldable pub record_use : TransitGraph → TensorUse → TransitGraph × Bool
record_use g u = if u.tensor == 0 then (g, false) else elim (find_kernel u.kernel g.kernels) [
  | none ↦ (g, false)
  | some k ↦ (
    record g {
      uses = g.uses ++ (record u { order = k.order; stream_id = k.stream_id } ∷ []);
      built = false;
    },
    true,
  )
]

-- The loop of `record`: it stops at the first use that is refused.
unfoldable pub record_uses : TransitGraph → ℕ → List TensorUse → TransitGraph × Bool
record_uses g kernel [] = (g, true)
record_uses g kernel (u ∷ us) =
    let (q, ok) = record_use g (record u { kernel = kernel }) in
    let rest = record_uses q kernel us in if ok then rest else (q, false)

unfoldable pub record_all : TransitGraph → KernelEvent → List TensorUse → TransitGraph × Bool
record_all g k us =
    let (q, ok) = record_kernel g k in if ok then record_uses q k.id us else (q, false)

unfoldable pub intern_label : TransitGraph → List ℕ → TransitGraph × ℕ
intern_label g [] = (g, 0)
intern_label g (c ∷ text) =
    (record g { labels = (g.labels ++ (c ∷ text)) ++ (0 ∷ []) }, length g.labels % 2 ^ 32)

-- The characters before the terminator.
unfoldable pub c_string : List ℕ → List ℕ
c_string [] = []
c_string (c ∷ cs) = if c == 0 then [] else c ∷ c_string cs

unfoldable pub label : TransitGraph → ℕ → List ℕ
label g index = if leb (length g.labels) index then [] else c_string (drop index g.labels)

pub set_cyclic : TransitGraph → Bool → TransitGraph
set_cyclic g true = record g { built = g.built && g.cyclic; cyclic = true }
set_cyclic g false = record g { built = g.built && not g.cyclic; cyclic = false }

pub live_bytes_at : TransitGraph → ℕ → ℕ
live_bytes_at g order =
    let i = upper_bound g.live_orders order in if i == 0 then 0 else get_or g.live_values (pred i) 0

pub role_bytes_from : TensorRole → ℕ → List TensorProfile → ℕ
role_bytes_from role total [] = total
role_bytes_from role total (p ∷ ps) =
    role_bytes_from role (if role_eq p.role role then add64 total p.reused_bytes else total) ps

pub removable_bytes_in_role : TransitGraph → TensorRole → ℕ
removable_bytes_in_role g role = role_bytes_from role 0 g.profiles

pub find_profile : ℕ → List TensorProfile → Option TensorProfile
find_profile tensor [] = none
find_profile tensor (p ∷ ps) = if p.tensor == tensor then some p else find_profile tensor ps

pub next_use_from : ℕ → ℕ → List TensorUse → ℕ
next_use_from tensor order [] = no_next_use
next_use_from tensor order (u ∷ us) =
    if u.tensor == tensor && leb order u.order then u.order else next_use_from tensor order us

pub next_use_order : TransitGraph → ℕ → ℕ → ℕ
next_use_order g tensor order = next_use_from tensor order g.uses

pub incoming_from : List TensorUse → ℕ → ℕ → List TransitEdge → Option TransitEdge
incoming_from uses tensor order [] = none
incoming_from uses tensor order (e ∷ es) =
    if e.tensor == tensor
      && any (λ u. u.kernel == e.consumer && u.tensor == tensor && u.order == order) uses
    then some e
    else incoming_from uses tensor order es

pub incoming_edge : TransitGraph → ℕ → ℕ → Option TransitEdge
incoming_edge g tensor order = incoming_from g.uses tensor order g.edges

unfoldable pub is_monotonic : List KernelEvent → Bool
is_monotonic [] = true
is_monotonic (k ∷ []) = true
is_monotonic (k ∷ j ∷ ks) =
    let rest = is_monotonic (j ∷ ks) in if ltb j.order k.order then false else rest

unfoldable pub all_placed : List KernelEvent → List TensorUse → Bool
all_placed ks [] = true
all_placed ks (u ∷ us) = is_some (find_kernel u.kernel ks) && all_placed ks us

pub is_empty {ℓ} : {A : Type ℓ} → List A → Bool
is_empty [] = true
is_empty (x ∷ xs) = false

unfoldable pub validate : TransitGraph → Option String
validate g =
    if is_empty g.kernels
    then some "graph has no kernels"
    else if not (is_monotonic g.kernels)
    then some "kernel order is not monotonic"
    else if not (all_placed g.kernels g.uses)
    then some "a use names a kernel that was never recorded"
    else if g.built && g.step_traffic == 0
    then some "graph moves no bytes: every use was unresolved"
    else none

pub clear : TransitGraph → TransitGraph
clear g = record no_graph { cyclic = g.cyclic }
