-- ===== src/Registry/Handles.antt =====
-- `TensorHandle` against `resolve`: what a handle resolves to, and for how long.
use recurlocal.Base.{
  ℕ, ◌+◌, ◌<◌, ◌≡◌, ◌≢◌, refl, sym, ap, ◌∙◌, inl, inr, true, false, List, [], ◌∷◌, map, Option,
  none, some, if◌then◌else◌, get_elem?, get_elem?-set_self, get_elem?-append_one, All, All-set,
  All-append, All-get_elem?, All_of_get_elem?, Bool-cases, length, arith, word_size,
}
use recurlocal.Tensor.{TensorDesc, TensorHandle, is_valid_desc}
use recurlocal.Registry.{
  find, Slot, Registry, handle_of, reuse_slot, append_slot, register_tensor, killed,
  unregister_tensor, unregister_handle, same_generation, slot_at, index_of_id, cleared, clear,
  live_desc, resolve, Call, registers, unregisters, unregisters_handle, clears, step, run,
}
use recurlocal.Registry.Cases.{register_cases, unregister_cases}
use recurlocal.Registry.Invariant.{
  IsSlot, IsValid, taken, update_slot-IsValid, reuse_slot-IsValid, append_slot-IsValid,
  step-IsValid, step-next_id, unregister_tensor-next_id,
}
use recurlocal.Registry.View.{
  find-unregister_tensor, lookup, lookup_at, lookup-some, slot_at-index_of_id,
}

resolve_found : (h : TensorHandle) (o : Option Slot) → Option TensorDesc
resolve_found h o = if same_generation h o then live_desc o else none

resolve-lookup :
    (r : Registry) (h : TensorHandle)
    → h.id ≢ 0
    → resolve r h ≡ resolve_found h (lookup h.id r.slots)
unfolding resolve resolve_found
resolve-lookup r h nz = rw (slot_at-index_of_id h.id r.slots nz) (ground arith)

resolve_zero : (r : Registry) (h : TensorHandle) → h.id ≡ 0 → resolve r h ≡ none
unfolding resolve
resolve_zero r h z = ground arith

-- A slot at any index resolves through its own handle.
resolve_at :
    (r : Registry) (i : ℕ) (s : Slot)
    → IsValid r
    → get_elem? r.slots i ≡ some s
    → s.live ≡ true
    → resolve r (handle_of s) ≡ some s.desc
unfolding resolve_found same_generation live_desc
resolve_at r i s v at live =
    let nz = (All-get_elem? (IsSlot r.next_id) r.slots i s v.slots_ok at).live_id live in
    ground (arith, resolve-lookup r (handle_of s) nz, lookup_at r.slots i s v.slots_apart at nz)

-- In a well-formed registry with an id left, the handle that the registration of a usable descriptor
-- returns resolves to that descriptor.
pub resolve-register_tensor :
    (r : Registry) (desc : TensorDesc)
    → IsValid r
    → r.next_id + 1 < word_size
    → is_valid_desc desc ≡ true
    → let (q, h) = register_tensor r desc in resolve q h ≡ some desc
unfolding reuse_slot append_slot
resolve-register_tensor r desc v room ok =
    register_cases (λ x. resolve x.0 x.1 ≡ some desc) r desc (λ bad. cc)
      (λ i s at live e _. resolve_at r i s v at live ∙ ap some e)
      (λ i s at live ptr ne _.
        resolve_at _ i (record s { desc = desc }) (update_slot-IsValid r i s desc v at live ptr ok)
          (get_elem?-set_self r.slots i s _ at) live)
      (λ i s at dead _ free.
        resolve_at _ i (taken desc r.next_id s.generation)
          (reuse_slot-IsValid r i s desc v room at dead ok free)
          (get_elem?-set_self r.slots i s _ at) refl)
      (λ _ free.
        resolve_at _ (length r.slots) (taken desc r.next_id 1)
          (append_slot-IsValid r desc v room ok free)
          (get_elem?-append_one r.slots (taken desc r.next_id 1)) refl)

abbrev Misses : TensorHandle → Slot → Type 0
Misses h s = s.id ≡ h.id → s.generation ≢ h.generation

-- A handle that was issued and that no slot answers to.
pub record Stale (h : TensorHandle) (r : Registry) : Type 0 where
  pub nonzero : h.id ≢ 0
  pub issued : h.id < r.next_id
  pub missed : All (Misses h) r.slots

resolve-Stale : (r : Registry) (h : TensorHandle) → Stale h r → resolve r h ≡ none
unfolding resolve_found same_generation live_desc
resolve-Stale r h st = resolve-lookup r h st.nonzero ∙ go (lookup h.id r.slots) refl
  where
    go : (o : Option Slot) → lookup h.id r.slots ≡ o → resolve_found h o ≡ none
    go none e = refl
    go (some s) e =
        let (i, at, eq) = lookup-some h.id r.slots s e in
        ground (arith, All-get_elem? (Misses h) r.slots i s st.missed at eq)

Stale-of_none :
    (r : Registry) (h : TensorHandle)
    → IsValid r
    → h.id ≢ 0
    → h.id < r.next_id
    → resolve r h ≡ none
    → Stale h r
Stale-of_none r h v nz lt e = record {
  nonzero = nz;
  issued = lt;
  missed = All_of_get_elem? (Misses h) r.slots λ i s at same gen.
      let ok = All-get_elem? (IsSlot r.next_id) r.slots i s v.slots_ok at in
      elim (Bool-cases s.live) [
        | inl live ↦
            let it : handle_of s ≡ h = ground arith in
            cc (e, resolve_at r i s v at live, ap (resolve r) it)
        | inr dead ↦ nz (sym same ∙ ok.dead_id dead)
      ];
}

taken-Misses :
    (r : Registry) (h : TensorHandle) (desc : TensorDesc) (gen : ℕ)
    → Stale h r
    → Misses h (taken desc r.next_id gen)
taken-Misses r h desc gen st same = absurd (omega (arith, st.issued))

register_tensor-Stale :
    (r : Registry) (h : TensorHandle) (desc : TensorDesc)
    → Stale h r
    → r.next_id + 1 < word_size
    → Stale h (register_tensor r desc).0
unfolding reuse_slot append_slot
register_tensor-Stale r h desc st room =
    register_cases (λ x. Stale h x.0) r desc (λ _. st) (λ i s at live e ok. st)
      (λ i s at live ptr ne ok. record {
        nonzero = st.nonzero;
        issued = st.issued;
        missed =
            All-set (Misses h) r.slots i (record s { desc = desc }) st.missed
              (All-get_elem? (Misses h) r.slots i s st.missed at);
      })
      (λ i s at dead ok free. record {
        nonzero = st.nonzero;
        issued = omega (arith, st.issued);
        missed =
            All-set (Misses h) r.slots i (taken desc r.next_id s.generation) st.missed
              (taken-Misses r h desc s.generation st);
      })
      (λ ok free. record {
        nonzero = st.nonzero;
        issued = omega (arith, st.issued);
        missed =
            All-append (Misses h) r.slots (taken desc r.next_id 1 ∷ []) st.missed
              (taken-Misses r h desc 1 st, tt);
      })

unregister_tensor-Stale :
    (r : Registry) (h : TensorHandle) (id : ℕ) → Stale h r → Stale h (unregister_tensor r id)
unregister_tensor-Stale r h id st =
    unregister_cases (Stale h) r id (λ _. st)
      λ i s at live e nz. record {
        nonzero = st.nonzero;
        issued = st.issued;
        missed =
            All-set (Misses h) r.slots i (killed s) st.missed (λ z. absurd (st.nonzero (sym z)));
      }

cleared-Misses :
    (h : TensorHandle) (slots : List Slot) → h.id ≢ 0 → All (Misses h) (map cleared slots)
unfolding cleared
cleared-Misses h [] nz = tt
cleared-Misses h (s ∷ ss) nz = (λ z. absurd (nz (sym z)), cleared-Misses h ss nz)

step-Stale :
    (r : Registry) (h : TensorHandle) (c : Call)
    → Stale h r
    → r.next_id + 1 < word_size
    → Stale h (step r c)
unfolding step unregister_handle clear
step-Stale r h (registers desc) st room = register_tensor-Stale r h desc st room
step-Stale r h (unregisters id) st room = unregister_tensor-Stale r h id st
step-Stale r h (unregisters_handle k) st room = ground (arith, unregister_tensor-Stale r h k.id st)
step-Stale r h clears st room = record {
  nonzero = st.nonzero;
  issued = st.issued;
  missed = cleared-Misses h r.slots st.nonzero;
}

run-Stale :
    (r : Registry) (h : TensorHandle) (cs : List Call)
    → Stale h r
    → r.next_id + length cs < word_size
    → Stale h (run r cs)
unfolding run
run-Stale r h [] st room = st
run-Stale r h (c ∷ cs) st room =
    run-Stale (step r c) h cs (step-Stale r h c st (omega arith)) (omega (arith, step-next_id r c))

-- In a well-formed registry, a handle whose id was issued and that resolves to nothing never
-- resolves again, whatever is registered, unregistered or cleared later, while the 64-bit ids last.
pub resolve-run-none :
    (r : Registry) (h : TensorHandle) (cs : List Call)
    → IsValid r
    → h.id ≢ 0
    → h.id < r.next_id
    → resolve r h ≡ none
    → r.next_id + length cs < word_size
    → resolve (run r cs) h ≡ none
resolve-run-none r h cs v nz lt e room =
    resolve-Stale (run r cs) h (run-Stale r h cs (Stale-of_none r h v nz lt e) room)

resolve_of_find : (r : Registry) (h : TensorHandle) → find r h.id ≡ none → resolve r h ≡ none
unfolding resolve find
resolve_of_find r h e = ground (arith, e)

resolve_other :
    (r : Registry) (h : TensorHandle)
    → same_generation h (slot_at r.slots (index_of_id h.id r.slots)) ≡ false
    → resolve r h ≡ none
unfolding resolve
resolve_other r h e = ground (arith, e)

unregister_handle-next_id :
    (r : Registry) (h : TensorHandle) → (unregister_handle r h).next_id ≡ r.next_id
unfolding unregister_handle
unregister_handle-next_id r h = ground (arith, unregister_tensor-next_id r h.id)

resolve-unregister_handle :
    (r : Registry) (h : TensorHandle) → IsValid r → resolve (unregister_handle r h) h ≡ none
unfolding unregister_handle
resolve-unregister_handle r h v =
    elim (Bool-cases (same_generation h (slot_at r.slots (index_of_id h.id r.slots)))) [
      | inl same ↦ rw same (
          resolve_of_find (unregister_tensor r h.id) h
            (find-unregister_tensor r h.id h.id v ∙ ground arith))
      | inr other ↦ rw other (resolve_other r h other)
    ]

-- In a well-formed registry, a handle with an issued id that is unregistered resolves to nothing, at
-- once and after any later calls, while the 64-bit ids last.
pub resolve-run-unregister_handle :
    (r : Registry) (h : TensorHandle) (cs : List Call)
    → IsValid r
    → h.id < r.next_id
    → h.id ≢ 0
    → r.next_id + length cs + 1 < word_size
    → resolve (run (unregister_handle r h) cs) h ≡ none
unfolding step
resolve-run-unregister_handle r h cs v lt nz room =
    let q = unregister_handle r h in
    resolve-run-none q h cs (step-IsValid r (unregisters_handle h) v (omega arith)) nz
      (omega (arith, unregister_handle-next_id r h)) (resolve-unregister_handle r h v)
      (omega (arith, unregister_handle-next_id r h))
