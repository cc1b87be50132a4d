-- ===== src/Registry/Epoch.antt =====
-- `epoch()`, which a plan cache compares instead of the whole table; and registration of an
-- address that is already live.
use recurlocal.Base.{
  ℕ, suc, ◌+◌, ◌%◌, ◌<◌, ◌≤◌, ◌≡◌, ◌≢◌, refl, sym, ap, ◌∙◌, inl, inr, true, false, ◌⊎◌, List, [],
  ◌∷◌, some, get_elem?, All-Pairs-get_elem?, All-get_elem?, All, get_elem?-set_self,
  get_elem?-append_one, length, arith, word_size, add64,
}
use recurlocal.Tensor.{TensorDesc, is_valid_desc}
use recurlocal.Registry.{
  Slot, Registry, handle_of, holds_pointer, reuse_slot, append_slot, register_tensor,
  unregister_tensor, unregister_handle, clear, Call, registers, unregisters, unregisters_handle,
  clears, step, run,
}
use mathlib.Core.Option.{some-injective}
use recurlocal.Registry.Cases.{register_cases, unregister_cases, valid_fields}
use recurlocal.Registry.Invariant.{
  IsValid, Apart, Apart-sym, taken, update_slot-IsValid, reuse_slot-IsValid, append_slot-IsValid,
}

-- A call leaves the registry alone, or advances the epoch.
abbrev Ticks : Registry → Registry → Type 0
Ticks r q = (q ≡ r) ⊎ (q.epoch ≡ add64 r.epoch 1)

unregister_tensor-Ticks : (r : Registry) (id : ℕ) → Ticks r (unregister_tensor r id)
unregister_tensor-Ticks r id =
    unregister_cases (Ticks r) r id (λ _. inl refl) (λ i s at live e nz. inr refl)

step-Ticks : (r : Registry) (c : Call) → Ticks r (step r c)
unfolding step unregister_handle clear reuse_slot append_slot
step-Ticks r (registers desc) =
    register_cases (λ x. Ticks r x.0) r desc (λ _. inl refl) (λ i s at live e ok. inl refl)
      (λ i s at live ptr ne ok. inr refl) (λ i s at dead ok free. inr refl) (λ ok free. inr refl)
step-Ticks r (unregisters id) = unregister_tensor-Ticks r id
step-Ticks r (unregisters_handle h) = ground (arith, unregister_tensor-Ticks r h.id)
step-Ticks r clears = inr refl

-- How many of the calls changed the registry.
abbrev Changes : Registry → ℕ → Registry → Type 0
Changes r n q = (k : ℕ) × (k ≤ n) × (q.epoch ≡ (r.epoch + k) % word_size) × (k ≡ 0 → q ≡ r)

run-Changes :
    (r : Registry) (cs : List Call) → r.epoch < word_size → Changes r (length cs) (run r cs)
unfolding run
run-Changes r [] w = (0, omega arith, omega arith, λ _. refl)
run-Changes r (c ∷ cs) w = elim (step-Ticks r c) [
  | inl same ↦
      let (k, le, e, z) = run-Changes (step r c) cs (rw same w) in
      (k, omega arith, e ∙ ap (λ (q : Registry). (q.epoch + k) % word_size) same, λ h. z h ∙ same)
  | inr tick ↦
      let (k, le, e, z) = run-Changes (step r c) cs (omega arith) in
      (suc k, omega arith, omega arith, λ h. absurd (omega arith))
]

-- If fewer than 2 ^ 64 calls leave the 64-bit epoch where it was, they left the whole registry as it
-- was.
pub run-epoch :
    (r : Registry) (cs : List Call)
    → r.epoch < word_size
    → length cs < word_size
    → (run r cs).epoch ≡ r.epoch
    → run r cs ≡ r
run-epoch r cs w few same = let (k, le, e, z) = run-Changes r cs w in z (omega arith)

-- Two slots that hold one live address are one slot.
held_once :
    (r : Registry) (i j : ℕ) (s t : Slot)
    → IsValid r
    → get_elem? r.slots i ≡ some s
    → get_elem? r.slots j ≡ some t
    → s.desc.ptr ≢ 0
    → s.desc.ptr ≡ t.desc.ptr
    → s ≡ t
held_once r i j s t v at at' nz e =
    elim (All-Pairs-get_elem? Apart r.slots i j s t Apart-sym v.slots_apart at at') [
      | inl same ↦ some-injective _ _ (sym at ∙ (ap (get_elem? r.slots) same ∙ at'))
      | inr apart ↦ absurd (nz (apart.ptrs e))
    ]

free_not_held :
    (r : Registry) (i : ℕ) (s : Slot) (p : ℕ)
    → get_elem? r.slots i ≡ some s
    → s.live ≡ true
    → s.desc.ptr ≡ p
    → ¬ All (λ t. holds_pointer p t ≡ false) r.slots
unfolding holds_pointer
free_not_held r i s p at live e free =
    ground (arith, All-get_elem? (λ t. holds_pointer p t ≡ false) r.slots i s free at)

register_tensor_live :
    (r : Registry) (i : ℕ) (s : Slot) (desc : TensorDesc)
    → IsValid r
    → get_elem? r.slots i ≡ some s
    → s.live ≡ true
    → s.desc ≡ desc
    → is_valid_desc desc ≡ true
    → register_tensor r desc ≡ (r, handle_of s)
register_tensor_live r i s desc v at live e ok =
    register_cases (λ x. x ≡ (r, handle_of s)) r desc (λ bad. cc)
      (λ j t at' _ e' _.
        ap (λ (u : Slot). (r, handle_of u))
          (sym (held_once r i j s t v at at' nz (ap (λ (d : TensorDesc). d.ptr) (e ∙ sym e')))))
      (λ j t at' _ ptr ne _.
        let same = held_once r i j s t v at at' nz (ap (λ (d : TensorDesc). d.ptr) e ∙ sym ptr) in
        absurd (ne (ap (λ (u : Slot). u.desc) (sym same) ∙ e)))
      (λ j t _ _ _ free.
        absurd (free_not_held r i s desc.ptr at live (ap (λ (d : TensorDesc). d.ptr) e) free))
      (λ _ free.
        absurd (free_not_held r i s desc.ptr at live (ap (λ (d : TensorDesc). d.ptr) e) free))
  where
    nz : s.desc.ptr ≢ 0
    nz z = (valid_fields desc ok).1 (sym (ap (λ (d : TensorDesc). d.ptr) e) ∙ z)

-- In a well-formed registry with an id left, declaring the same usable tensor again returns the same
-- handle and changes nothing: the table does not grow and the epoch stays.
pub register_tensor_again :
    (r : Registry) (desc : TensorDesc)
    → IsValid r
    → r.next_id + 1 < word_size
    → is_valid_desc desc ≡ true
    → let (q, h) = register_tensor r desc in register_tensor q desc ≡ (q, h)
unfolding reuse_slot append_slot
register_tensor_again r desc v room ok =
    register_cases (λ x. register_tensor x.0 desc ≡ x) r desc (λ bad. cc)
      (λ i s at live e _. register_tensor_live r i s desc v at live e ok)
      (λ i s at live ptr ne _.
        register_tensor_live _ i (record s { desc = desc }) desc
          (update_slot-IsValid r i s desc v at live ptr ok) (get_elem?-set_self r.slots i s _ at)
          live refl ok)
      (λ i s at dead _ free.
        register_tensor_live _ i (taken desc r.next_id s.generation) desc
          (reuse_slot-IsValid r i s desc v room at dead ok free)
          (get_elem?-set_self r.slots i s _ at) refl refl ok)
      (λ _ free.
        register_tensor_live _ (length r.slots) (taken desc r.next_id 1) desc
          (append_slot-IsValid r desc v room ok free)
          (get_elem?-append_one r.slots (taken desc r.next_id 1)) refl refl ok)
