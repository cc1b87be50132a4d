-- ===== src/Registry/Cases.antt =====
-- How each operation of the registry can end, with what is known there.
use recurlocal.Base.{
  ◌∙◌, Option, ℕ, ◌≡◌, ◌≢◌, inl, inr, true, false, ◌==◌, List, none, some, if◌then◌else◌, get_elem?,
  set, find_index, find_index-some, find_index-none, All, All-mono, Bool-cases, Option-cases, arith,
  add64, sub64,
}
use recurlocal.Tensor.{TensorDesc, TensorHandle, no_handle, is_valid_desc, same_desc}
use recurlocal.Tensor.Equality.{same_desc→eq, same_desc_iff}
use recurlocal.Registry.{
  Slot, Registry, handle_of, holds_pointer, holds_id, is_dead, index_of_pointer, index_of_id,
  slot_at, update_slot, reuse_slot, append_slot, insert_slot, register_at, register_tensor, killed,
  kill_slot, find, live_desc, unregister_tensor,
}

pub valid_fields :
    (d : TensorDesc) → is_valid_desc d ≡ true → ((d.ptr == 0) ≡ false) × (d.ptr ≢ 0) × (d.bytes ≢ 0)
valid_fields d h = ground arith

pub pointer_found :
    (p : ℕ)
    → (p == 0) ≡ false
    → (slots : List Slot) (i : ℕ) → index_of_pointer p slots ≡ some i
    → (s : Slot) × (get_elem? slots i ≡ some s) × (s.live ≡ true) × (s.desc.ptr ≡ p)
unfolding index_of_pointer holds_pointer
pointer_found p nz slots i e =
    let (s, at, hit) = find_index-some (holds_pointer p) slots i (rw (nz, if◌then◌else◌) at e) in
    (s, at, ground arith, ground arith)

pub pointer_free :
    (p : ℕ)
    → (p == 0) ≡ false
    → (slots : List Slot) → index_of_pointer p slots ≡ none
    → All (λ t. holds_pointer p t ≡ false) slots
unfolding index_of_pointer
pointer_free p nz slots e = find_index-none (holds_pointer p) slots (rw (nz, if◌then◌else◌) at e)

pub id_found :
    (id : ℕ) (slots : List Slot) (i : ℕ)
    → index_of_id id slots ≡ some i
    → (s : Slot) × (get_elem? slots i ≡ some s) × (s.id ≡ id) × (id ≢ 0)
unfolding index_of_id holds_id
id_found id slots i e =
    let (s, at, hit) = find_index-some (holds_id id) slots i (ground arith) in
    (s, at, ground arith, ground arith)

pub id_free :
    (id : ℕ) (slots : List Slot) → index_of_id id slots ≡ none → id ≢ 0 → All (λ t. t.id ≢ id) slots
unfolding index_of_id holds_id
id_free id slots e nz =
    All-mono (λ t. holds_id id t ≡ false) slots (find_index-none (holds_id id) slots (ground arith))
      (λ t h. ground arith)

pub insert_cases {ℓ} :
    (P : Registry × TensorHandle → Type ℓ) (r : Registry) (desc : TensorDesc)
    → ((i : ℕ) (s : Slot)
        → get_elem? r.slots i ≡ some s
        → s.live ≡ false
        → P (reuse_slot r i s desc))
    → P (append_slot r desc)
    → P (
        insert_slot r
          (find_index is_dead r.slots)
          (slot_at r.slots (find_index is_dead r.slots))
          desc)
unfolding insert_slot slot_at is_dead
insert_cases P r desc reused appended = elim (Option-cases (find_index is_dead r.slots)) [
  | inl e ↦ rw (e, slot_at, insert_slot) appended
  | inr (i, e) ↦
      let (s, at, dead) = find_index-some is_dead r.slots i e in
      rw (e, slot_at, at, insert_slot) (reused i s at (ground arith))
]

pub register_cases {ℓ} :
    (P : Registry × TensorHandle → Type ℓ) (r : Registry) (desc : TensorDesc)
    → (is_valid_desc desc ≡ false → P (r, no_handle))
    → ((i : ℕ) (s : Slot)
        → get_elem? r.slots i ≡ some s
        → s.live ≡ true
        → s.desc ≡ desc
        → is_valid_desc desc ≡ true
        → P (r, handle_of s))
    → ((i : ℕ) (s : Slot)
        → get_elem? r.slots i ≡ some s
        → s.live ≡ true
        → s.desc.ptr ≡ desc.ptr
        → s.desc ≢ desc
        → is_valid_desc desc ≡ true
        → P (
          record r { slots = set r.slots i (record s { desc = desc }); epoch = add64 r.epoch 1 },
          handle_of s,
        ))
    → ((i : ℕ) (s : Slot)
        → get_elem? r.slots i ≡ some s
        → s.live ≡ false
        → is_valid_desc desc ≡ true
        → All (λ t. holds_pointer desc.ptr t ≡ false) r.slots
        → P (reuse_slot r i s desc))
    → (is_valid_desc desc ≡ true
        → All (λ t. holds_pointer desc.ptr t ≡ false) r.slots
        → P (append_slot r desc))
    → P (register_tensor r desc)
unfolding register_tensor register_at insert_slot slot_at update_slot
register_cases P r desc invalid same changed reused appended =
    elim (Bool-cases (is_valid_desc desc)) [
      | inl ok ↦ rw ok (elim (Option-cases (index_of_pointer desc.ptr r.slots)) [
        | inl e ↦ rw (e, slot_at, register_at) (absent ok e)
        | inr (i, e) ↦ present ok i e (pointer_found desc.ptr (valid_fields desc ok).0 r.slots i e)
      ])
      | inr bad ↦ rw bad (invalid bad)
    ]
  where
    different : (s : Slot) → same_desc s.desc desc ≡ false → s.desc ≢ desc
    different s ne e = cc (ne, (same_desc_iff s.desc desc).1 e)

    absent :
        is_valid_desc desc ≡ true
        → index_of_pointer desc.ptr r.slots ≡ none
        → P (register_at r none none desc)
    absent ok e =
        let free = pointer_free desc.ptr (valid_fields desc ok).0 r.slots e in
        insert_cases P r desc (λ i s at dead. reused i s at dead ok free) (appended ok free)

    present :
        is_valid_desc desc ≡ true
        → (i : ℕ) → index_of_pointer desc.ptr r.slots ≡ some i
        → (s : Slot) × (get_elem? r.slots i ≡ some s) × (s.live ≡ true) × (s.desc.ptr ≡ desc.ptr)
        → P (
            register_at r
              (index_of_pointer desc.ptr r.slots)
              (slot_at r.slots (index_of_pointer desc.ptr r.slots))
              desc)
    present ok i e (s, at, live, ptr) =
        rw (e, slot_at, at, register_at, update_slot)
          (elim (Bool-cases (same_desc s.desc desc)) [
            | inl eq ↦ rw eq (same i s at live (same_desc→eq s.desc desc eq) ok)
            | inr ne ↦ rw ne (changed i s at live ptr (different s ne) ok)
          ])

-- The registry after a live slot is killed.
abbrev pub kill_at : Registry → ℕ → Slot → Registry
kill_at r i s = record r {
  slots = set r.slots i (killed s);
  live_count = sub64 r.live_count 1;
  epoch = add64 r.epoch 1;
}

find_of_index :
    (r : Registry) (id : ℕ) (o : Option Slot)
    → slot_at r.slots (index_of_id id r.slots) ≡ o
    → find r id ≡ live_desc o
unfolding find
find_of_index r id o e = rw e

pub unregister_cases {ℓ} :
    (P : Registry → Type ℓ) (r : Registry) (id : ℕ)
    → (find r id ≡ none → P r)
    → ((i : ℕ) (s : Slot)
        → get_elem? r.slots i ≡ some s
        → s.live ≡ true
        → s.id ≡ id
        → id ≢ 0
        → P (kill_at r i s))
    → P (unregister_tensor r id)
unfolding unregister_tensor kill_slot slot_at live_desc
unregister_cases P r id same removed = elim (Option-cases (index_of_id id r.slots)) [
  | inl e ↦ rw (e, slot_at, kill_slot) (same (find_of_index r id none (rw (e, slot_at))))
  | inr (i, e) ↦
      let (s, at, eq, nz) = id_found id r.slots i e in
      rw (e, slot_at, at, kill_slot)
        (elim (Bool-cases s.live) [
          | inl live ↦ rw live (removed i s at live eq nz)
          | inr dead ↦ rw dead (same (find_of_index r id (some s) (rw (e, slot_at) at) ∙ rw dead))
        ])
]
