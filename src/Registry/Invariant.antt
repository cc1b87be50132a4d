-- ===== src/Registry/Invariant.antt =====
-- The well-formedness of a registry: ids and addresses of live slots are distinct, dead slots are
-- blank, and the counters agree with the table.
use recurlocal.Base.{
  ℕ, zero, suc, ◌+◌, ◌<◌, ◌≤◌, ◌≡◌, ◌≢◌, refl, sym, ◌∙◌, Bool, true, false, List, [], ◌∷◌, ◌++◌,
  map, some, if◌then◌else◌, get_elem?, set, All, All-mono, All_of_forall, All-set, All-append,
  All-get_elem?, Pairs, Pairs-set, Pairs-set_like, Pairs-append_one, length, arith, add64, sub64,
  word_size,
}
use recurlocal.Tensor.{TensorDesc, is_valid_desc}
use recurlocal.Registry.{
  Slot, Registry, empty, holds_pointer, reuse_slot, append_slot, register_tensor, killed,
  unregister_tensor, unregister_handle, cleared, clear, Call, registers, unregisters,
  unregisters_handle, clears, step, run,
}
use recurlocal.Registry.Cases.{register_cases, unregister_cases, valid_fields}

abbrev pub one_if : Bool → ℕ
one_if b = if b then 1 else 0

pub live_slots : List Slot → ℕ
live_slots [] = 0
live_slots (s ∷ ss) = one_if s.live + live_slots ss

-- A slot below the next id: a live one holds a valid descriptor, a dead one is blank.
pub record IsSlot (next : ℕ) (s : Slot) : Type 0 where
  pub below : s.id < next
  pub live_id : s.live ≡ true → s.id ≢ 0
  pub live_ptr : s.live ≡ true → s.desc.ptr ≢ 0
  pub live_bytes : s.live ≡ true → s.desc.bytes ≢ 0
  pub dead_id : s.live ≡ false → s.id ≡ 0
  pub dead_ptr : s.live ≡ false → s.desc.ptr ≡ 0

-- Two slots share neither an id nor an address, blank slots aside.
pub record Apart (s t : Slot) : Type 0 where
  pub ids : s.id ≡ t.id → s.id ≡ 0
  pub ptrs : s.desc.ptr ≡ t.desc.ptr → s.desc.ptr ≡ 0

pub record IsValid (r : Registry) : Type 0 where
  pub slots_ok : All (IsSlot r.next_id) r.slots
  pub slots_apart : Pairs Apart r.slots
  pub counted : live_slots r.slots ≡ r.live_count
  pub issued : r.live_count < r.next_id
  pub in_word : r.next_id < word_size

pub Apart-sym : (s t : Slot) → Apart s t → Apart t s
Apart-sym s t a = record { ids = λ e. e ∙ a.ids (sym e); ptrs = λ e. e ∙ a.ptrs (sym e) }

live_slots-set :
    (slots : List Slot) (i : ℕ) (s t : Slot)
    → get_elem? slots i ≡ some s
    → live_slots (set slots i t) + one_if s.live ≡ live_slots slots + one_if t.live
unfolding live_slots
live_slots-set [] i s t e = cc
live_slots-set (x ∷ xs) zero s t e = ground arith
live_slots-set (x ∷ xs) (suc i) s t e = omega (arith, live_slots-set xs i s t e)

live_slots-append :
    (slots : List Slot) (s : Slot)
    → live_slots (slots ++ (s ∷ [])) ≡ live_slots slots + one_if s.live
unfolding live_slots
live_slots-append [] s = omega arith
live_slots-append (x ∷ xs) s = omega (arith, live_slots-append xs s)

-- A descriptor that no live slot holds is apart from all of them, under a new id.
Apart-of_free :
    (n : ℕ) (v : Slot) (slots : List Slot)
    → v.id ≡ n
    → v.desc.ptr ≢ 0
    → All (IsSlot n) slots
    → All (λ t. holds_pointer v.desc.ptr t ≡ false) slots
    → All (Apart v) slots
unfolding holds_pointer
Apart-of_free n v [] e p ok free = tt
Apart-of_free n v (x ∷ xs) e p (ok, oks) (free, frees) = (
  record { ids = λ h. absurd (omega (arith, ok.below)); ptrs = λ h. ground arith },
  Apart-of_free n v xs e p oks frees,
)

IsSlot-suc : (n m : ℕ) (slots : List Slot) → n ≤ m → All (IsSlot n) slots → All (IsSlot m) slots
IsSlot-suc n m slots h ok = All-mono (IsSlot n) slots ok (λ s o. record {
  below = omega (arith, o.below);
  live_id = o.live_id;
  live_ptr = o.live_ptr;
  live_bytes = o.live_bytes;
  dead_id = o.dead_id;
  dead_ptr = o.dead_ptr;
})

-- The slot that a registration fills.
abbrev pub taken : TensorDesc → ℕ → ℕ → Slot
taken desc id gen = record { desc = desc; id = id; generation = gen; live = true }

taken-IsSlot :
    (n gen : ℕ) (desc : TensorDesc)
    → n ≢ 0
    → is_valid_desc desc ≡ true
    → IsSlot (n + 1) (taken desc n gen)
taken-IsSlot n gen desc nz ok =
    let (_, p, b) = valid_fields desc ok in
    record {
      below = omega arith;
      live_id = λ _. nz;
      live_ptr = λ _. p;
      live_bytes = λ _. b;
      dead_id = λ e. cc;
      dead_ptr = λ e. cc;
    }

next_suc : (r : Registry) → r.next_id + 1 < word_size → add64 r.next_id 1 ≡ r.next_id + 1
next_suc r h = omega arith

pub reuse_slot-IsValid :
    (r : Registry) (i : ℕ) (s : Slot) (desc : TensorDesc)
    → IsValid r
    → r.next_id + 1 < word_size
    → get_elem? r.slots i ≡ some s
    → s.live ≡ false
    → is_valid_desc desc ≡ true
    → All (λ t. holds_pointer desc.ptr t ≡ false) r.slots
    → IsValid (reuse_slot r i s desc).0
unfolding reuse_slot
reuse_slot-IsValid r i s desc v room at dead ok free =
    let new = taken desc r.next_id s.generation in
    let nz : r.next_id ≢ 0 = omega (arith, v.issued) in
    record {
      slots_ok = rw (next_suc r room) (
          All-set (IsSlot (r.next_id + 1)) r.slots i new
            (IsSlot-suc r.next_id (r.next_id + 1) r.slots (omega arith) v.slots_ok)
            (taken-IsSlot r.next_id s.generation desc nz ok));
      slots_apart =
          Pairs-set Apart r.slots i new Apart-sym v.slots_apart
            (Apart-of_free r.next_id new r.slots refl (valid_fields desc ok).1 v.slots_ok free);
      counted = ground (arith, live_slots-set r.slots i s new at, v.counted, v.issued);
      issued = omega (arith, v.issued);
      in_word = omega arith;
    }

pub append_slot-IsValid :
    (r : Registry) (desc : TensorDesc)
    → IsValid r
    → r.next_id + 1 < word_size
    → is_valid_desc desc ≡ true
    → All (λ t. holds_pointer desc.ptr t ≡ false) r.slots
    → IsValid (append_slot r desc).0
unfolding append_slot
append_slot-IsValid r desc v room ok free =
    let new = taken desc r.next_id 1 in
    let nz : r.next_id ≢ 0 = omega (arith, v.issued) in
    record {
      slots_ok = rw (next_suc r room) (
          All-append (IsSlot (r.next_id + 1)) r.slots (new ∷ [])
            (IsSlot-suc r.next_id (r.next_id + 1) r.slots (omega arith) v.slots_ok)
            (taken-IsSlot r.next_id 1 desc nz ok, tt));
      slots_apart =
          Pairs-append_one Apart r.slots new Apart-sym v.slots_apart
            (Apart-of_free r.next_id new r.slots refl (valid_fields desc ok).1 v.slots_ok free);
      counted = omega (arith, live_slots-append r.slots new, v.counted, v.issued);
      issued = omega (arith, v.issued);
      in_word = omega arith;
    }

pub update_slot-IsValid :
    (r : Registry) (i : ℕ) (s : Slot) (desc : TensorDesc)
    → IsValid r
    → get_elem? r.slots i ≡ some s
    → s.live ≡ true
    → s.desc.ptr ≡ desc.ptr
    → is_valid_desc desc ≡ true
    → IsValid
        (record r { slots = set r.slots i (record s { desc = desc }); epoch = add64 r.epoch 1 })
update_slot-IsValid r i s desc v at live ptr ok =
    let old = All-get_elem? (IsSlot r.next_id) r.slots i s v.slots_ok at in
    let new : Slot = record s { desc = desc } in
    record {
      slots_ok = All-set (IsSlot r.next_id) r.slots i new v.slots_ok (record {
        below = old.below;
        live_id = old.live_id;
        live_ptr = λ _. (valid_fields desc ok).1;
        live_bytes = λ _. (valid_fields desc ok).2;
        dead_id = old.dead_id;
        dead_ptr = λ e. cc;
      });
      slots_apart =
          Pairs-set_like Apart r.slots i s new at
            (λ t a. record { ids = a.ids; ptrs = λ e. a.ptrs (e ∙ sym ptr) })
            (λ t a. record { ids = a.ids; ptrs = λ e. sym ptr ∙ a.ptrs (ptr ∙ e) }) v.slots_apart;
      counted = omega (arith, live_slots-set r.slots i s new at, v.counted);
      issued = v.issued;
      in_word = v.in_word;
    }

pub kill_slot-IsValid :
    (r : Registry) (i : ℕ) (s : Slot)
    → IsValid r
    → get_elem? r.slots i ≡ some s
    → s.live ≡ true
    → IsValid (record r {
      slots = set r.slots i (killed s);
      live_count = sub64 r.live_count 1;
      epoch = add64 r.epoch 1;
    })
kill_slot-IsValid r i s v at live = record {
  slots_ok = All-set (IsSlot r.next_id) r.slots i (killed s) v.slots_ok (record {
    below = omega (arith, v.issued);
    live_id = λ e. cc;
    live_ptr = λ e. cc;
    live_bytes = λ e. cc;
    dead_id = λ _. refl;
    dead_ptr = λ _. refl;
  });
  slots_apart = Pairs-set Apart r.slots i (killed s) Apart-sym v.slots_apart (
      All_of_forall (Apart (killed s)) r.slots (λ t. record { ids = λ _. refl; ptrs = λ _. refl }));
  counted =
      ground (arith, live_slots-set r.slots i s (killed s) at, v.counted, v.issued, v.in_word);
  issued = ground (arith, live_slots-set r.slots i s (killed s) at, v.counted, v.issued, v.in_word);
  in_word = v.in_word;
}

pub unregister_tensor-IsValid :
    (r : Registry) (id : ℕ) → IsValid r → IsValid (unregister_tensor r id)
unregister_tensor-IsValid r id v =
    unregister_cases IsValid r id (λ _. v) λ i s at live _ _. kill_slot-IsValid r i s v at live

pub register_tensor-IsValid :
    (r : Registry) (desc : TensorDesc)
    → IsValid r
    → r.next_id + 1 < word_size
    → IsValid (register_tensor r desc).0
register_tensor-IsValid r desc v room =
    register_cases (λ x. IsValid x.0) r desc (λ _. v) (λ i s at live e ok. v)
      (λ i s at live ptr ne ok. update_slot-IsValid r i s desc v at live ptr ok)
      (λ i s at dead ok free. reuse_slot-IsValid r i s desc v room at dead ok free)
      (λ ok free. append_slot-IsValid r desc v room ok free)

cleared_slots :
    (n : ℕ) (slots : List Slot)
    → 0 < n
    → All (IsSlot n) (map cleared slots)
      × Pairs Apart (map cleared slots)
      × (live_slots (map cleared slots) ≡ 0)
unfolding live_slots cleared
cleared_slots n [] h = (tt, tt, refl)
cleared_slots n (s ∷ ss) h =
    let (ok, apart, none_live) = cleared_slots n ss h in
    (
      (
        record {
          below = h;
          live_id = λ e. cc;
          live_ptr = λ e. cc;
          live_bytes = λ e. cc;
          dead_id = λ _. refl;
          dead_ptr = λ _. refl;
        },
        ok,
      ),
      (
        All-mono (IsSlot n) (map cleared ss) ok
            (λ t _. record { ids = λ _. refl; ptrs = λ _. refl }),
        apart,
      ),
      omega (arith, none_live),
    )

pub clear-IsValid : (r : Registry) → IsValid r → IsValid (clear r)
unfolding clear
clear-IsValid r v =
    let (ok, apart, none_live) = cleared_slots r.next_id r.slots (omega (arith, v.issued)) in
    record {
      slots_ok = ok;
      slots_apart = apart;
      counted = none_live;
      issued = omega (arith, v.issued);
      in_word = v.in_word;
    }

-- Every operation keeps a registry well formed while ids last.
pub step-IsValid :
    (r : Registry) (c : Call) → IsValid r → r.next_id + 1 < word_size → IsValid (step r c)
unfolding step unregister_handle
step-IsValid r (registers desc) v room = register_tensor-IsValid r desc v room
step-IsValid r (unregisters id) v room = unregister_tensor-IsValid r id v
step-IsValid r (unregisters_handle h) v room = ground (arith, unregister_tensor-IsValid r h.id v)
step-IsValid r clears v room = clear-IsValid r v

pub unregister_tensor-next_id :
    (r : Registry) (id : ℕ) → (unregister_tensor r id).next_id ≡ r.next_id
unregister_tensor-next_id r id =
    unregister_cases (λ q. q.next_id ≡ r.next_id) r id (λ _. refl) (λ i s at live e nz. refl)

pub step-next_id : (r : Registry) (c : Call) → (step r c).next_id ≤ r.next_id + 1
unfolding step unregister_handle reuse_slot append_slot clear
step-next_id r (registers desc) =
    register_cases (λ x. x.0.next_id ≤ r.next_id + 1) r desc (λ _. omega arith)
      (λ i s at live e ok. omega arith) (λ i s at live ptr ne ok. omega arith)
      (λ i s at dead ok free. omega arith) (λ ok free. omega arith)
step-next_id r (unregisters id) = omega (arith, unregister_tensor-next_id r id)
step-next_id r (unregisters_handle h) = ground (arith, unregister_tensor-next_id r h.id)
step-next_id r clears = omega arith

-- A well-formed registry is well formed after any sequence of calls that leaves the 64-bit ids
-- unexhausted.
pub run-IsValid :
    (r : Registry) (cs : List Call)
    → IsValid r
    → r.next_id + length cs < word_size
    → IsValid (run r cs)
unfolding run
run-IsValid r [] v room = v
run-IsValid r (c ∷ cs) v room =
    run-IsValid (step r c) cs (step-IsValid r c v (omega arith)) (omega (arith, step-next_id r c))

pub empty-IsValid : IsValid empty
unfolding live_slots
empty-IsValid = record {
  slots_ok = tt;
  slots_apart = tt;
  counted = refl;
  issued = omega arith;
  in_word = omega arith;
}
