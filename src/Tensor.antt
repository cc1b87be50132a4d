-- ===== src/Tensor.antt =====
-- include/tensortransit/tensor.h: roles, access kinds, descriptors and handles, with the tests on
-- them from src/tensor_registry.cpp. An address is a natural, and 0 is the null pointer.
pub mod Equality
pub mod Examples
use recurlocal.Base.{
  ℕ, ◌≡◌, Bool, true, false, not, ◌&&◌, ◌||◌, ◌==◌, bool_eq, if◌then◌else◌, arith, ◌↔◌,
}
use recurlocal.Base.Int.{ℤ, minus_one, eqℤ, pos, negsuc, eqℤ_iff}

pub data TensorRole : Type 0 where
  unknown recurrent_state kv_cache model_weight expert_weight : TensorRole
  activation workspace speculative_state multimodal_feature : TensorRole

-- The numeric values of the enumeration, which a `RoleMask` shifts by.
abbrev pub role_value : TensorRole → ℕ
role_value unknown = 0
role_value recurrent_state = 1
role_value kv_cache = 2
role_value model_weight = 3
role_value expert_weight = 4
role_value activation = 5
role_value workspace = 6
role_value speculative_state = 7
role_value multimodal_feature = 8

abbrev pub role_eq : TensorRole → TensorRole → Bool
role_eq a b = role_value a == role_value b

pub data AccessKind : Type 0 where
  read write read_write : AccessKind

-- `has_read_traffic`: a pure write has nothing to make resident.
abbrev pub has_read_traffic : AccessKind → Bool
has_read_traffic read = true
has_read_traffic write = false
has_read_traffic read_write = true

pub record TensorDesc : Type 0 where
  pub ptr : ℕ
  pub bytes : ℕ
  pub role : TensorRole
  pub base : ℕ
  pub base_bytes : ℕ
  pub mutable_data : Bool
  pub request_local : Bool
  pub model_global : Bool
  pub device : ℤ
  pub request_id : ℤ
  pub bytes_per_use : ℕ

-- `TensorDesc{}`.
abbrev pub no_desc : TensorDesc
no_desc = record {
  ptr = 0;
  bytes = 0;
  role = unknown;
  base = 0;
  base_bytes = 0;
  mutable_data = false;
  request_local = false;
  model_global = false;
  device = pos 0;
  request_id = minus_one;
  bytes_per_use = 0;
}

abbrev pub use_bytes : TensorDesc → ℕ
use_bytes d = if d.bytes_per_use == 0 then d.bytes else d.bytes_per_use

abbrev pub allocation_bytes : TensorDesc → ℕ
allocation_bytes d = if d.base_bytes == 0 then d.bytes else d.base_bytes

abbrev pub is_valid_desc : TensorDesc → Bool
is_valid_desc d = not (d.ptr == 0) && not (d.bytes == 0)

pub record TensorHandle : Type 0 where
  pub id : ℕ
  pub generation : ℕ

abbrev pub no_handle : TensorHandle
no_handle = record { id = 0; generation = 0 }

-- Every field that a planner reads.
unfoldable pub same_desc : TensorDesc → TensorDesc → Bool
same_desc a b =
    a.ptr == b.ptr
    && a.bytes == b.bytes
    && role_eq a.role b.role
    && a.base == b.base
    && a.base_bytes == b.base_bytes
    && bool_eq a.mutable_data b.mutable_data
    && bool_eq a.request_local b.request_local
    && bool_eq a.model_global b.model_global
    && eqℤ a.device b.device
    && eqℤ a.request_id b.request_id
    && a.bytes_per_use == b.bytes_per_use
