-- ===== src/Registry.antt =====
-- src/tensor_registry.cpp: `TensorRegistry`. Ids, generations, the live count and the epoch are
-- 64-bit counters. An index of -1 is `none`.
pub mod Cases
pub mod Invariant
pub mod View
pub mod Handles
pub mod Epoch
pub mod Examples
use recurlocal.Base.{
  ℕ, zero, suc, ◌+◌, ◌≡◌, Bool, true, false, not, ◌&&◌, ◌==◌, List, [], ◌∷◌, ◌++◌, map, Option,
  none, some, if◌then◌else◌, get_elem?, set, find_index, add64, sub64,
}
use recurlocal.Tensor.{
  TensorRole, role_eq, TensorDesc, TensorHandle, no_desc, no_handle, is_valid_desc, same_desc,
}

pub record Slot : Type 0 where
  pub desc : TensorDesc
  pub id : ℕ
  pub generation : ℕ
  pub live : Bool

pub record Registry : Type 0 where
  pub slots : List Slot
  pub next_id : ℕ
  pub live_count : ℕ
  pub epoch : ℕ

abbrev pub empty : Registry
empty = record { slots = []; next_id = 1; live_count = 0; epoch = 0 }

abbrev pub handle_of : Slot → TensorHandle
handle_of s = record { id = s.id; generation = s.generation }

pub holds_pointer : ℕ → Slot → Bool
holds_pointer p s = s.live && s.desc.ptr == p

pub holds_id : ℕ → Slot → Bool
holds_id id s = s.id == id

pub is_dead : Slot → Bool
is_dead s = not s.live

pub index_of_pointer : ℕ → List Slot → Option ℕ
index_of_pointer p slots = if p == 0 then none else find_index (holds_pointer p) slots

pub index_of_id : ℕ → List Slot → Option ℕ
index_of_id id slots = if id == 0 then none else find_index (holds_id id) slots

-- The slot that an index names, if the index is not -1.
pub slot_at : List Slot → Option ℕ → Option Slot
slot_at slots none = none
slot_at slots (some i) = get_elem? slots i

-- A live address is declared again.
pub update_slot : Registry → ℕ → Slot → TensorDesc → Registry × TensorHandle
update_slot r i slot desc = if same_desc slot.desc desc then (r, handle_of slot) else (
  record r { slots = set r.slots i (record slot { desc = desc }); epoch = add64 r.epoch 1 },
  handle_of slot,
)

-- A new id, with the counters that go with it.
abbrev pub issue : Registry → List Slot → Registry
issue r slots = record r {
  slots = slots;
  next_id = add64 r.next_id 1;
  live_count = add64 r.live_count 1;
  epoch = add64 r.epoch 1;
}

pub reuse_slot : Registry → ℕ → Slot → TensorDesc → Registry × TensorHandle
reuse_slot r i slot desc =
    let taken : Slot = record slot { desc = desc; id = r.next_id; live = true } in
    (issue r (set r.slots i taken), handle_of taken)

pub append_slot : Registry → TensorDesc → Registry × TensorHandle
append_slot r desc =
    let fresh : Slot = record { desc = desc; id = r.next_id; generation = 1; live = true } in
    (issue r (r.slots ++ (fresh ∷ [])), handle_of fresh)

-- Where no slot is dead, the table grows.
pub insert_slot : Registry → Option ℕ → Option Slot → TensorDesc → Registry × TensorHandle
insert_slot r (some i) (some slot) desc = reuse_slot r i slot desc
insert_slot r _ _ desc = append_slot r desc

pub register_at : Registry → Option ℕ → Option Slot → TensorDesc → Registry × TensorHandle
register_at r (some i) (some slot) desc = update_slot r i slot desc
register_at r _ _ desc =
    let dead = find_index is_dead r.slots in insert_slot r dead (slot_at r.slots dead) desc

pub register_tensor : Registry → TensorDesc → Registry × TensorHandle
register_tensor r desc =
    let at = index_of_pointer desc.ptr r.slots in
    if is_valid_desc desc then register_at r at (slot_at r.slots at) desc else (r, no_handle)

-- `unregister_tensor` by id, on the slot found.
abbrev pub killed : Slot → Slot
killed s = record { desc = no_desc; id = 0; generation = add64 s.generation 1; live = false }

pub kill_slot : Registry → Option ℕ → Option Slot → Registry
kill_slot r (some i) (some slot) =
    if slot.live
    then record r {
      slots = set r.slots i (killed slot);
      live_count = sub64 r.live_count 1;
      epoch = add64 r.epoch 1;
    }
    else r
kill_slot r _ _ = r

pub unregister_tensor : Registry → ℕ → Registry
unregister_tensor r id = let at = index_of_id id r.slots in kill_slot r at (slot_at r.slots at)

pub same_generation : TensorHandle → Option Slot → Bool
same_generation h none = false
same_generation h (some slot) = slot.generation == h.generation

-- `unregister_tensor` by handle: a stale handle must not unregister what now holds the slot.
pub unregister_handle : Registry → TensorHandle → Registry
unregister_handle r h =
    if same_generation h (slot_at r.slots (index_of_id h.id r.slots))
    then unregister_tensor r h.id
    else r

pub live_desc : Option Slot → Option TensorDesc
live_desc none = none
live_desc (some slot) = if slot.live then some slot.desc else none

pub resolve : Registry → TensorHandle → Option TensorDesc
resolve r h =
    let slot = slot_at r.slots (index_of_id h.id r.slots) in
    if h.id == 0 then none else if same_generation h slot then live_desc slot else none

pub find : Registry → ℕ → Option TensorDesc
find r id = live_desc (slot_at r.slots (index_of_id id r.slots))

pub found_handle : Option Slot → TensorHandle
found_handle none = no_handle
found_handle (some slot) = handle_of slot

pub find_by_pointer : Registry → ℕ → TensorHandle
find_by_pointer r p = found_handle (slot_at r.slots (index_of_pointer p r.slots))

pub in_role : TensorRole → Slot → Bool
in_role role s = s.live && role_eq s.desc.role role

bytes_from : TensorRole → ℕ → List Slot → ℕ
bytes_from role total [] = total
bytes_from role total (s ∷ ss) =
    bytes_from role (if in_role role s then add64 total s.desc.bytes else total) ss

pub bytes_in_role : Registry → TensorRole → ℕ
bytes_in_role r role = bytes_from role 0 r.slots

count_from : TensorRole → ℕ → List Slot → ℕ
count_from role count [] = count
count_from role count (s ∷ ss) =
    count_from role (if in_role role s then add64 count 1 else count) ss

pub live_in_role : Registry → TensorRole → ℕ
live_in_role r role = count_from role 0 r.slots

pub cleared : Slot → Slot
cleared s = record {
  desc = no_desc;
  id = 0;
  generation = if s.live then add64 s.generation 1 else s.generation;
  live = false;
}

pub clear : Registry → Registry
clear r = record r { slots = map cleared r.slots; live_count = 0; epoch = add64 r.epoch 1 }

-- Every call that can change the table.
pub data Call : Type 0 where
  registers : TensorDesc → Call
  unregisters : ℕ → Call
  unregisters_handle : TensorHandle → Call
  clears : Call

pub step : Registry → Call → Registry
step r (registers desc) = (register_tensor r desc).0
step r (unregisters id) = unregister_tensor r id
step r (unregisters_handle h) = unregister_handle r h
step r clears = clear r

pub run : Registry → List Call → Registry
run r [] = r
run r (c ∷ cs) = run (step r c) cs
