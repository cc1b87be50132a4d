-- ===== src/Plan/Rebind.antt =====
-- `TransitPlan::rebind` of src/plan.cpp: the regions of a plan's actions are resolved against a registry.
use recurlocal.Base.{
  ◌↔◌, ℕ, ◌≤◌, ◌≡◌, ◌∙◌, ◌⊎◌, inl, inr, refl, sym, Bool, true, false, ◌||◌, ◌==◌, ltb, Option, none,
  some, List, [], ◌∷◌, if◌then◌else◌, All, arith, Bool-cases,
}
use recurlocal.Tensor.{TensorDesc, allocation_bytes}
use recurlocal.Registry.{Registry, find}
use recurlocal.Plan.{
  TransitPlan, TransitAction, TransitActionKind, normal, persist, stream, prefetch, rotate_window,
  clear_policy, record_event, wait_event,
}
use recurlocal.Plan.Index.{finalize}

-- The actions that name a region.
abbrev pub names_region : TransitActionKind → Bool
names_region persist = true
names_region rotate_window = true
names_region stream = true
names_region prefetch = true
names_region normal = false
names_region clear_policy = false
names_region record_event = false
names_region wait_event = false

abbrev pub clamped : TensorDesc → ℕ → ℕ
clamped desc bytes =
    let limit = allocation_bytes desc in if bytes == 0 || ltb limit bytes then limit else bytes

clamped_le : (desc : TensorDesc) (bytes : ℕ) → clamped desc bytes ≤ allocation_bytes desc
clamped_le desc bytes = ground arith

module _ {W : Type 0} where
  -- The action with the tensor's region, at most as long as the allocation.
  abbrev pub with_region : TensorDesc → TransitAction W → TransitAction W
  with_region desc a = record a { ptr = desc.ptr; bytes = clamped desc a.bytes }

  unfoldable pub bind_region : TensorDesc → TransitAction W → TransitAction W
  bind_region desc a = if names_region a.kind then with_region desc a else a

  -- One action, for what the registry has for its tensor and the loop's result on the rest.
  abbrev pub rebind_step :
      Bool
      → Option TensorDesc
      → TransitAction W
      → List (TransitAction W)
      → List (TransitAction W) × Bool
      → List (TransitAction W) × Bool
  rebind_step true found a rest (bound, ok) = (a ∷ bound, ok)
  rebind_step false none a rest s = (a ∷ rest, false)
  rebind_step false (some desc) a rest (bound, ok) = (bind_region desc a ∷ bound, ok)

  -- The loop over the actions, and whether it reached the end: those before an unknown tensor are bound.
  unfoldable pub rebind_actions : Registry → List (TransitAction W) → List (TransitAction W) × Bool
  rebind_actions r [] = ([], true)
  rebind_actions r (a ∷ rest) =
      rebind_step (a.tensor == 0) (find r a.tensor) a rest (rebind_actions r rest)

  -- The index is built anew, but on a failure it keeps the positions that it had.
  abbrev pub rebound : TransitPlan W → List (TransitAction W) × Bool → TransitPlan W × Bool
  rebound p (actions, true) = (finalize (record p { actions = actions; finalized = false }), true)
  rebound p (actions, false) = (record p { actions = actions }, false)

  unfoldable pub rebind : Registry → TransitPlan W → TransitPlan W × Bool
  rebind r p = rebound p (rebind_actions r p.actions)

  -- Every tensor that the action names is known.
  abbrev pub IsKnown : Registry → TransitAction W → Type 0
  IsKnown r a = (a.tensor ≡ 0) ⊎ ((desc : TensorDesc) × (find r a.tensor ≡ some desc))

  -- An action that needs a region has the one of its tensor, and no more bytes than the allocation.
  abbrev pub IsBound : Registry → TransitAction W → Type 0
  IsBound r a =
      (a.tensor ≡ 0)
      ⊎ ((desc : TensorDesc) × (find r a.tensor ≡ some desc)
          × ((names_region a.kind ≡ false)
              ⊎ ((a.ptr ≡ desc.ptr) × (a.bytes ≤ allocation_bytes desc))))

  region-IsBound :
      (r : Registry) (a : TransitAction W) (desc : TensorDesc) (b : Bool)
      → find r a.tensor ≡ some desc
      → names_region a.kind ≡ b
      → IsBound r (if b then with_region desc a else a)
  region-IsBound r a desc true e k = inr (desc, e, inr (refl, clamped_le desc a.bytes))
  region-IsBound r a desc false e k = inr (desc, e, inl k)

  step-IsBound :
      (r : Registry) (z : Bool) (found : Option TensorDesc) (a : TransitAction W)
      (rest : List (TransitAction W)) (s : List (TransitAction W) × Bool)
      → (a.tensor == 0) ≡ z
      → find r a.tensor ≡ found
      → (s.1 ≡ true → All (IsBound r) s.0)
      → (rebind_step z found a rest s).1 ≡ true
      → All (IsBound r) (rebind_step z found a rest s).0
  unfolding bind_region
  step-IsBound r true found a rest (bound, ok) e f ih h = (inl (ground (arith, e)), ih h)
  step-IsBound r false none a rest s e f ih h = cc
  step-IsBound r false (some desc) a rest (bound, ok) e f ih h =
      (region-IsBound r a desc (names_region a.kind) f refl, ih h)

  step-IsKnown :
      (r : Registry) (z : Bool) (found : Option TensorDesc) (a : TransitAction W)
      (rest : List (TransitAction W)) (s : List (TransitAction W) × Bool)
      → (a.tensor == 0) ≡ z
      → find r a.tensor ≡ found
      → IsKnown r a
      → s.1 ≡ true
      → (rebind_step z found a rest s).1 ≡ true
  step-IsKnown r true found a rest (bound, ok) e f k h = h
  step-IsKnown r false none a rest s e f (inl z) h = ground (arith, z)
  step-IsKnown r false none a rest s e f (inr (desc, q)) h = cc
  step-IsKnown r false (some desc) a rest (bound, ok) e f k h = h

  IsKnown-of_step :
      (r : Registry) (z : Bool) (found : Option TensorDesc) (a : TransitAction W)
      (rest : List (TransitAction W)) (s : List (TransitAction W) × Bool)
      → (a.tensor == 0) ≡ z
      → find r a.tensor ≡ found
      → (rebind_step z found a rest s).1 ≡ true
      → IsKnown r a × (s.1 ≡ true)
  IsKnown-of_step r true found a rest (bound, ok) e f h = (inl (ground (arith, e)), h)
  IsKnown-of_step r false none a rest s e f h = cc
  IsKnown-of_step r false (some desc) a rest (bound, ok) e f h = (inr (desc, f), h)

  rebind_actions-IsBound :
      (r : Registry) (actions : List (TransitAction W))
      → (rebind_actions r actions).1 ≡ true
      → All (IsBound r) (rebind_actions r actions).0
  unfolding rebind_actions
  rebind_actions-IsBound r [] h = tt
  rebind_actions-IsBound r (a ∷ rest) h =
      step-IsBound r (a.tensor == 0) (find r a.tensor) a rest (rebind_actions r rest) refl refl
        (rebind_actions-IsBound r rest) h

  rebind_actions_iff :
      (r : Registry) (actions : List (TransitAction W))
      → ((rebind_actions r actions).1 ≡ true) ↔ All (IsKnown r) actions
  unfolding rebind_actions
  rebind_actions_iff r [] = (λ h. tt, λ h. refl)
  rebind_actions_iff r (a ∷ rest) = (
    λ h.
        let (known, ok) =
          IsKnown-of_step r (a.tensor == 0) (find r a.tensor) a rest (rebind_actions r rest) refl
            refl h in
        (known, (rebind_actions_iff r rest).0 ok),
    λ h.
        step-IsKnown r (a.tensor == 0) (find r a.tensor) a rest (rebind_actions r rest) refl refl
          h.0 ((rebind_actions_iff r rest).1 h.1),
  )

module _ {W : Type 0} where
  rebound_flag : (p : TransitPlan W) (s : List (TransitAction W) × Bool) → (rebound p s).1 ≡ s.1
  rebound_flag p (actions, true) = refl
  rebound_flag p (actions, false) = refl

  rebound-IsBound :
      (r : Registry) (p : TransitPlan W) (s : List (TransitAction W) × Bool)
      → (s.1 ≡ true → All (IsBound r) s.0)
      → (rebound p s).1 ≡ true
      → ((rebound p s).0.finalized ≡ true) × All (IsBound r) (rebound p s).0.actions
  unfolding finalize
  rebound-IsBound r p (actions, true) bound h = (refl, bound h)
  rebound-IsBound r p (actions, false) bound h = cc

-- Rebinding succeeds exactly when the registry knows every tensor that the plan names; then the plan is finalized, and every action that needs a region has its tensor's address and at most the bytes of its tensor's allocation.
pub rebind_iff :
    {W : Type 0} (r : Registry) (p : TransitPlan W)
    → (((rebind r p).1 ≡ true) ↔ All (IsKnown r) p.actions)
      × (((rebind r p).1 ≡ false)
          ⊎ (((rebind r p).0.finalized ≡ true) × All (IsBound r) (rebind r p).0.actions))
unfolding rebind
rebind_iff r p =
    let s = rebind_actions r p.actions in
    let flag = rebound_flag p s in
    (
      (
        λ h. (rebind_actions_iff r p.actions).0 (sym flag ∙ h),
        λ h. flag ∙ (rebind_actions_iff r p.actions).1 h,
      ),
      elim (Bool-cases (rebound p s).1) [
        | inl done ↦ inr (rebound-IsBound r p s (rebind_actions-IsBound r p.actions) done)
        | inr failed ↦ inl failed
      ],
    )
