-- ===== src/Trace/ReadTrace.antt =====
-- The parts of `read_trace` of src/trace.cpp: metadata, the tensor table, and the events with their uses.
-- The registry and the graph are given and returned; the error's text is kept in its parts.
pub mod Whole
use Prim.Native.String.{String}
use recurlocal.Base.{
  ℕ, ◌+◌, ◌-◌, ◌%◌, ◌^◌, Bool, true, false, Option, none, some, List, [], ◌∷◌, ◌==◌, ltb,
  if◌then◌else◌, length, add64,
}
use recurlocal.Base.Int.{ℤ, pos, negsuc, minus_one}
use recurlocal.Double.{Double}
use recurlocal.Tensor.{TensorDesc, TensorRole, AccessKind, no_desc}
use recurlocal.Registry
use recurlocal.Graph
use recurlocal.Graph.Build.{build}
use recurlocal.Trace.{Read, done, refused, out_of_fuel}
use recurlocal.Trace.Json
use recurlocal.Trace.Tables.{parse_name, roles, accesses}
use recurlocal.Trace.ReadPlan.{as_u64, as_string, find_named, u64_or, elements_at}

pub record TraceMetadata : Type 0 where
  pub schema_version : ℕ
  pub device : ℤ
  pub device_name : List ℕ
  pub model : List ℕ
  pub model_digest : List ℕ
  pub runtime : List ℕ
  pub runtime_commit : List ℕ
  pub phase : List ℕ
  pub active_requests : ℤ
  pub cyclic : Bool
  pub notes : List ℕ

-- What `read_trace` refuses.
pub data TraceProblem : Type 0 where
  syntax : String → ℕ → TraceProblem
  not_an_object : TraceProblem
  other_schema : ℕ → TraceProblem
  unknown_role : List ℕ → TraceProblem
  no_events : TraceProblem
  no_kernel_id : TraceProblem
  out_of_order : TraceProblem
  undeclared_tensor : ℕ → TraceProblem
  unknown_access : List ℕ → TraceProblem

-- `static_cast<int>` of an unsigned value.
abbrev pub int_of : ℕ → ℤ
int_of n = let m = n % 2 ^ 32 in if ltb m (2 ^ 31) then pos m else negsuc (2 ^ 32 - 1 - m)

-- The ids of the document and those of the registry; `id_map[a] = b` puts an entry in front.
unfoldable pub id_of : ℕ → List (ℕ × ℕ) → Option ℕ
id_of a [] = none
id_of a ((b, id) ∷ ids) = if a == b then some id else id_of a ids

-- What the loop over the tensors has: the registry, the map and the next synthetic address.
pub record Tensors : Type 0 where
  pub registry : Registry.Registry
  pub ids : List (ℕ × ℕ)
  pub synthetic : ℕ

-- A descriptor without bytes is not registered.
unfoldable pub declare : Tensors → ℕ → TensorDesc → Tensors
declare t document_id desc =
    let moved = record t { synthetic = add64 t.synthetic 4096 } in
    if desc.bytes == 0
    then moved
    else let (registry, handle) = Registry.register_tensor t.registry desc in
      record moved { registry = registry; ids = (document_id, handle.id) ∷ t.ids }

module _ {W : Type 0} ⦃d : Double W⦄ where
  -- `Value::as_bool`.
  unfoldable pub as_bool : Bool → Json.Value W → Bool
  as_bool fallback (Json.boolean b) = b
  as_bool fallback v = fallback

  unfoldable pub bool_or : Json.Value W → String → Bool → Bool → Bool
  bool_or item key fallback old = elim (find_named item key) [
    | some v ↦ as_bool fallback v
    | none ↦ old
  ]

  unfoldable pub string_or : Json.Value W → String → List ℕ → List ℕ
  string_or item key old = elim (find_named item key) [ some v ↦ as_string v | none ↦ old ]

  unfoldable pub int_or : Json.Value W → String → ℤ → ℤ
  int_or item key old = elim (find_named item key) [ some v ↦ int_of (as_u64 v) | none ↦ old ]

  unfoldable pub metadata_of : Json.Value W → TraceMetadata → TraceMetadata
  metadata_of root meta = record {
    schema_version = 1;
    device = int_or root "device" meta.device;
    device_name = string_or root "device_name" meta.device_name;
    model = string_or root "model" meta.model;
    model_digest = string_or root "model_digest" meta.model_digest;
    runtime = string_or root "runtime" meta.runtime;
    runtime_commit = string_or root "runtime_commit" meta.runtime_commit;
    phase = string_or root "phase" meta.phase;
    active_requests = int_or root "active_requests" meta.active_requests;
    cyclic = bool_or root "cyclic" true meta.cyclic;
    notes = string_or root "notes" meta.notes;
  }

  -- The role of an entry: unknown when it is missing, and `none` when its name is not known.
  unfoldable pub role_of : Option (Json.Value W) → Option TensorRole
  role_of none = some TensorRole.unknown
  role_of (some v) = parse_name roles (as_string v)

  -- `v->number` of any value: 0.0 when it is no number. `to_int` is its conversion to an `int`.
  unfoldable pub request_of : (W → ℤ) → Json.Value W → ℤ → ℤ
  request_of to_int item old = elim (find_named item "request_id") [
    | some (Json.number x) ↦ to_int x
    | some v ↦ pos 0
    | none ↦ old
  ]

  unfoldable pub desc_of : (W → ℤ) → ℕ → TensorRole → Json.Value W → TensorDesc
  desc_of to_int address role item = record no_desc {
    ptr = address;
    device = minus_one;
    bytes = u64_or item "bytes" 0;
    bytes_per_use = u64_or item "bytes_per_use" 0;
    role = role;
    mutable_data = bool_or item "mutable" false no_desc.mutable_data;
    request_local = bool_or item "request_local" false no_desc.request_local;
    model_global = bool_or item "model_global" false no_desc.model_global;
    request_id = request_of to_int item no_desc.request_id;
  }

  -- One entry of the table, by its id and its role.
  unfoldable pub read_tensor :
      (W → ℤ)
      → Json.Value W
      → Tensors
      → Option (Json.Value W)
      → Option TensorRole
      → Tensors × Option TraceProblem
  read_tensor to_int item t none role = (t, none)
  read_tensor to_int item t (some id) none = (
    record t { synthetic = add64 t.synthetic 4096 },
    some (unknown_role (string_or item "role" [])),
  )
  read_tensor to_int item t (some id) (some role) =
      (declare t (as_u64 id) (desc_of to_int t.synthetic role item), none)

  unfoldable pub read_tensors : (W → ℤ) → Json.Array W → Tensors → Tensors × Option TraceProblem
  read_tensors to_int Json.no_elements t = (t, none)
  read_tensors to_int (Json.element item items) t =
      let (q, problem) =
        read_tensor to_int item t (find_named item "id") (role_of (find_named item "role")) in
      elim problem [ none ↦ read_tensors to_int items q | some p ↦ (q, some p) ]

  unfoldable pub access_of : Option (Json.Value W) → Option AccessKind
  access_of none = some AccessKind.read
  access_of (some v) = parse_name accesses (as_string v)

  unfoldable pub use_of : ℕ → ℕ → AccessKind → Json.Value W → Graph.TensorUse
  use_of tensor kernel access item = record {
    tensor = tensor;
    kernel = kernel;
    access = access;
    order = 0;
    stream_id = pos 0;
    bytes = u64_or item "bytes" 0;
  }

  -- One use: an entry without an id is passed over, and what `record_use` returns is not looked at.
  unfoldable pub read_use :
      ℕ
      → Json.Value W
      → Graph.TransitGraph
      → ℕ
      → Option ℕ
      → Option AccessKind
      → Graph.TransitGraph × Option TraceProblem
  read_use kernel item g document_id none access = (g, some (undeclared_tensor document_id))
  read_use kernel item g document_id (some tensor) none =
      (g, some (unknown_access (string_or item "access" [])))
  read_use kernel item g document_id (some tensor) (some access) =
      ((Graph.record_use g (use_of tensor kernel access item)).0, none)

  unfoldable pub read_uses :
      List (ℕ × ℕ)
      → ℕ
      → Json.Array W
      → Graph.TransitGraph
      → Graph.TransitGraph × Option TraceProblem
  read_uses ids kernel Json.no_elements g = (g, none)
  read_uses ids kernel (Json.element item items) g = elim (find_named item "id") [
    | none ↦ read_uses ids kernel items g
    | some id ↦
        let (q, problem) =
          read_use kernel item g (as_u64 id) (id_of (as_u64 id) ids)
            (access_of (find_named item "access")) in
        elim problem [ none ↦ read_uses ids kernel items q | some p ↦ (q, some p) ]
  ]

  unfoldable pub labelled : Graph.TransitGraph → Option (Json.Value W) → Graph.TransitGraph × ℕ
  labelled g none = (g, 0)
  labelled g (some v) = Graph.intern_label g (Graph.c_string (as_string v))

  -- The kernel of an event; `order` is what a missing one is taken for.
  unfoldable pub kernel_of : Json.Value W → ℕ → ℕ → ℕ → Graph.KernelEvent
  kernel_of event id order label = record {
    id = id;
    order = u64_or event "order" order;
    stream_id = int_or event "stream" (pos 0);
    estimated_start_ns = u64_or event "start_ns" 0;
    estimated_duration_ns = u64_or event "duration_ns" 0;
    label = label;
  }

  -- One event by its id: its kernel, and then its uses when the kernel was recorded.
  unfoldable pub read_event :
      List (ℕ × ℕ)
      → Json.Value W
      → ℕ
      → Graph.TransitGraph
      → Option (Json.Value W)
      → Graph.TransitGraph × Option TraceProblem
  read_event ids event order g none = (g, some no_kernel_id)
  read_event ids event order g (some id) =
      let (named, label) = labelled g (find_named event "name") in
      let kernel = kernel_of event (as_u64 id) order label in
      let (recorded, ok) = Graph.record_kernel named kernel in
      if ok
      then read_uses ids kernel.id (elements_at event "tensors") recorded
      else (recorded, some out_of_order)

  unfoldable pub read_events :
      List (ℕ × ℕ)
      → ℕ
      → Json.Array W
      → Graph.TransitGraph
      → Graph.TransitGraph × Option TraceProblem
  read_events ids order Json.no_elements g = (g, none)
  read_events ids order (Json.element event events) g =
      let (q, problem) = read_event ids event order g (find_named event "kernel_id") in
      let next = add64 (u64_or event "order" order) 1 in
      elim problem [ none ↦ read_events ids next events q | some p ↦ (q, some p) ]
