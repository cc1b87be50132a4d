-- ===== src/Registry/View.antt =====
-- The registry as a partial map from ids to descriptors: what `find` returns after each call.
use recurlocal.Base.{
  ℕ, zero, suc, ◌+◌, ◌<◌, ◌≡◌, ◌≢◌, refl, sym, ap, ◌∙◌, inl, inr, true, ◌&&◌, ◌==◌, ◌⊎◌, List, [],
  ◌∷◌, ◌++◌, map, Option, none, some, if◌then◌else◌, get_elem?, get_elem?-set_self,
  get_elem?-append_one, set, find_index, All, All-mono, All-get_elem?, Pairs, Bool-cases, length,
  arith, add64, word_size,
}
use mathlib.Core.Option.{some-injective}
use recurlocal.Tensor.{TensorDesc, TensorHandle, is_valid_desc}
use recurlocal.Registry.{
  Slot, Registry, handle_of, holds_id, reuse_slot, append_slot, register_tensor, killed,
  unregister_tensor, slot_at, index_of_id, cleared, clear, find, live_desc,
}
use recurlocal.Registry.Cases.{register_cases, unregister_cases, kill_at}
use recurlocal.Registry.Invariant.{
  IsSlot, Apart, IsValid, taken, update_slot-IsValid, reuse_slot-IsValid, append_slot-IsValid,
  kill_slot-IsValid,
}

-- The first slot with this id.
pub lookup : ℕ → List Slot → Option Slot
lookup id [] = none
lookup id (s ∷ ss) = if s.id == id then some s else lookup id ss

slot_at-find_index :
    (id : ℕ) (slots : List Slot) → slot_at slots (find_index (holds_id id) slots) ≡ lookup id slots
unfolding find_index slot_at holds_id lookup
slot_at-find_index id [] = refl
slot_at-find_index id (s ∷ ss) = ground (arith, slot_at-find_index id ss)

pub slot_at-index_of_id :
    (id : ℕ) (slots : List Slot) → id ≢ 0 → slot_at slots (index_of_id id slots) ≡ lookup id slots
unfolding index_of_id
slot_at-index_of_id id slots nz = ground (arith, slot_at-find_index id slots)

pub lookup-none : (id : ℕ) (slots : List Slot) → All (λ t. t.id ≢ id) slots → lookup id slots ≡ none
unfolding lookup
lookup-none id [] h = refl
lookup-none id (s ∷ ss) h = ground (arith, lookup-none id ss h.1)

pub lookup-some :
    (id : ℕ) (slots : List Slot) (s : Slot)
    → lookup id slots ≡ some s
    → (i : ℕ) × (get_elem? slots i ≡ some s) × (s.id ≡ id)
unfolding lookup
lookup-some id [] s e = cc
lookup-some id (x ∷ xs) s e = elim (Bool-cases (x.id == id)) [
  | inl hit ↦ (0, ground arith, ground arith)
  | inr miss ↦ let (i, at, eq) = lookup-some id xs s (ground arith) in (suc i, at, eq)
]

-- Ids are distinct, so the slot at any index is the one that its id finds.
pub lookup_at :
    (slots : List Slot) (i : ℕ) (s : Slot)
    → Pairs Apart slots
    → get_elem? slots i ≡ some s
    → s.id ≢ 0
    → lookup s.id slots ≡ some s
unfolding lookup
lookup_at [] i s p e nz = cc
lookup_at (x ∷ xs) zero s p e nz = ground arith
lookup_at (x ∷ xs) (suc i) s (apart, p) e nz =
    let far = All-get_elem? (Apart x) xs i s apart e in
    ground (arith, lookup_at xs i s p e nz, far.ids)

lookup-set_ne :
    (id : ℕ) (slots : List Slot) (i : ℕ) (s v : Slot)
    → get_elem? slots i ≡ some s
    → v.id ≢ id
    → s.id ≢ id
    → lookup id (set slots i v) ≡ lookup id slots
unfolding lookup
lookup-set_ne id [] i s v e h k = refl
lookup-set_ne id (x ∷ xs) zero s v e h k = ground arith
lookup-set_ne id (x ∷ xs) (suc i) s v e h k = ground (arith, lookup-set_ne id xs i s v e h k)

-- An id that is overwritten is gone, since no other slot has it.
lookup-set_gone :
    (slots : List Slot) (i : ℕ) (s v : Slot)
    → Pairs Apart slots
    → get_elem? slots i ≡ some s
    → s.id ≢ 0
    → v.id ≢ s.id
    → lookup s.id (set slots i v) ≡ none
unfolding lookup
lookup-set_gone [] i s v p e nz h = refl
lookup-set_gone (x ∷ xs) zero s v (apart, p) e nz h =
    let here : x ≡ s = some-injective _ _ e in
    let gone : All (λ t. t.id ≢ s.id) xs = All-mono (Apart x) xs apart (λ t a k.
      nz (ap (λ (y : Slot). y.id) (sym here) ∙ a.ids (ap (λ (y : Slot). y.id) here ∙ sym k))) in
    ground (arith, lookup-none s.id xs gone)
lookup-set_gone (x ∷ xs) (suc i) s v (apart, p) e nz h =
    let far = All-get_elem? (Apart x) xs i s apart e in
    ground (arith, lookup-set_gone xs i s v p e nz h, far.ids)

lookup-append_ne :
    (id : ℕ) (slots : List Slot) (v : Slot)
    → v.id ≢ id
    → lookup id (slots ++ (v ∷ [])) ≡ lookup id slots
unfolding lookup
lookup-append_ne id [] v h = ground arith
lookup-append_ne id (x ∷ xs) v h = ground (arith, lookup-append_ne id xs v h)

pub find_in : List Slot → ℕ → Option TensorDesc
find_in slots id = if id == 0 then none else live_desc (lookup id slots)

find_zero : (r : Registry) → find r 0 ≡ none
unfolding find index_of_id slot_at live_desc
find_zero r = refl

find-eq-lookup : (r : Registry) (id : ℕ) → id ≢ 0 → find r id ≡ live_desc (lookup id r.slots)
unfolding find
find-eq-lookup r id nz = rw (slot_at-index_of_id id r.slots nz)

pub find-eq-find_in : (r : Registry) (id : ℕ) → find r id ≡ find_in r.slots id
unfolding find_in
find-eq-find_in r id = ground (arith, find_zero r, find-eq-lookup r id)

find_in-set :
    (slots : List Slot) (i : ℕ) (s v : Slot) (id : ℕ)
    → Pairs Apart (set slots i v)
    → get_elem? slots i ≡ some s
    → v.live ≡ true
    → v.id ≢ 0
    → (s.id ≡ 0) ⊎ (s.id ≡ v.id)
    → find_in (set slots i v) id ≡ (if v.id == id then some v.desc else find_in slots id)
unfolding find_in live_desc
find_in-set slots i s v id apart at live nz old = elim (Bool-cases (v.id == id)) [
  | inl hit ↦
      ground (arith, lookup_at (set slots i v) i v apart (get_elem?-set_self slots i s v at) nz)
  | inr miss ↦ ground (arith, lookup-set_ne id slots i s v at)
]

find_in-append :
    (slots : List Slot) (v : Slot) (id : ℕ)
    → Pairs Apart (slots ++ (v ∷ []))
    → v.live ≡ true
    → v.id ≢ 0
    → find_in (slots ++ (v ∷ [])) id ≡ (if v.id == id then some v.desc else find_in slots id)
unfolding find_in live_desc
find_in-append slots v id apart live nz = ground (
  arith,
  lookup_at (slots ++ (v ∷ [])) (length slots) v apart (get_elem?-append_one slots v) nz,
  lookup-append_ne id slots v,
)

find_in-killed :
    (slots : List Slot) (i : ℕ) (s : Slot) (id : ℕ)
    → Pairs Apart slots
    → get_elem? slots i ≡ some s
    → s.id ≢ 0
    → find_in (set slots i (killed s)) id ≡ (if s.id == id then none else find_in slots id)
unfolding find_in live_desc
find_in-killed slots i s id apart at nz = ground (
  arith,
  lookup-set_gone slots i s (killed s) apart at nz,
  lookup-set_ne id slots i s (killed s) at,
)

find_in-cleared : (slots : List Slot) (id : ℕ) → find_in (map cleared slots) id ≡ none
unfolding find_in live_desc lookup cleared
find_in-cleared [] id = ground arith
find_in-cleared (s ∷ ss) id = ground (arith, find_in-cleared ss id)

find_in_at :
    (slots : List Slot) (i : ℕ) (s : Slot)
    → Pairs Apart slots
    → get_elem? slots i ≡ some s
    → s.live ≡ true
    → s.id ≢ 0
    → find_in slots s.id ≡ some s.desc
unfolding find_in live_desc
find_in_at slots i s apart at live nz = ground (arith, lookup_at slots i s apart at nz)

-- What a registration of `desc` that ends in `x` does to the view.
abbrev Declares : Registry → TensorDesc → Registry × TensorHandle → Type 0
Declares r desc x =
    (id : ℕ) → find x.0 id ≡ (if is_valid_desc desc && x.1.id == id then some desc else find r id)

declares :
    (r : Registry) (desc : TensorDesc) (x : Registry × TensorHandle)
    → is_valid_desc desc ≡ true
    → ((id : ℕ) → find_in x.0.slots id ≡ (if x.1.id == id then some desc else find_in r.slots id))
    → Declares r desc x
declares r desc x ok h id = rw (ok, find-eq-find_in x.0 id, find-eq-find_in r id) (h id)

abbrev updated : Registry → ℕ → Slot → TensorDesc → Registry × TensorHandle
updated r i s desc = (
  record r { slots = set r.slots i (record s { desc = desc }); epoch = add64 r.epoch 1 },
  handle_of s,
)

register_tensor-Declares :
    (r : Registry) (desc : TensorDesc)
    → IsValid r
    → r.next_id + 1 < word_size
    → Declares r desc (register_tensor r desc)
unfolding reuse_slot append_slot
register_tensor-Declares r desc v room =
    register_cases (Declares r desc) r desc (λ bad id. rw bad refl)
      (λ i s at live e ok.
        declares r desc (r, handle_of s) ok
          (λ id. ground (arith, find_in_at r.slots i s v.slots_apart at live (id_ne _ s at live))))
      (λ i s at live ptr ne ok.
        let q = update_slot-IsValid r i s desc v at live ptr ok in
        declares r desc (updated r i s desc) ok (λ id.
          find_in-set r.slots i s (record s { desc = desc }) id q.slots_apart at live
            (id_ne _ s at live) (inr refl)))
      (λ i s at dead ok free.
        let q = reuse_slot-IsValid r i s desc v room at dead ok free in
        declares r desc (reuse_slot r i s desc) ok (λ id.
          find_in-set r.slots i s (taken desc r.next_id s.generation) id q.slots_apart at refl nz
            (inl ((All-get_elem? (IsSlot r.next_id) r.slots i s v.slots_ok at).dead_id dead))))
      (λ ok free.
        let q = append_slot-IsValid r desc v room ok free in
        declares r desc (append_slot r desc) ok
          (λ id. find_in-append r.slots (taken desc r.next_id 1) id q.slots_apart refl nz))
  where
    nz : r.next_id ≢ 0
    nz = omega (arith, v.issued)

    id_ne : (i : ℕ) (s : Slot) → get_elem? r.slots i ≡ some s → s.live ≡ true → s.id ≢ 0
    id_ne i s at live = (All-get_elem? (IsSlot r.next_id) r.slots i s v.slots_ok at).live_id live

-- After a registration in a well-formed registry with an id left, the handle's id finds the descriptor,
-- and every other id what it found before; an unusable descriptor changes nothing that is found.
pub find-register_tensor :
    (r : Registry) (desc : TensorDesc) (id : ℕ)
    → IsValid r
    → r.next_id + 1 < word_size
    → let (q, h) = register_tensor r desc in
      find q id ≡ (if is_valid_desc desc && h.id == id then some desc else find r id)
find-register_tensor r desc id v room = register_tensor-Declares r desc v room id

-- After an unregistration in a well-formed registry the id finds nothing, and every other id what it
-- found before.
pub find-unregister_tensor :
    (r : Registry) (k id : ℕ)
    → IsValid r
    → find (unregister_tensor r k) id ≡ (if k == id then none else find r id)
find-unregister_tensor r k id v =
    unregister_cases (λ q. find q id ≡ (if k == id then none else find r id)) r k
      (λ e. ground (arith, e))
      (λ i s at live e nz.
        let q = kill_slot-IsValid r i s v at live in
        ground (
          arith,
          find-eq-find_in r id,
          find-eq-find_in (kill_at r i s) id,
          find_in-killed r.slots i s id v.slots_apart at,
        ))

pub find-clear : (r : Registry) (id : ℕ) → find (clear r) id ≡ none
unfolding clear
find-clear r id = find-eq-find_in (clear r) id ∙ find_in-cleared r.slots id
