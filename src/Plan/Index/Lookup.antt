-- ===== src/Plan/Index/Lookup.antt =====
-- `before` and `after` against a scan of the plan.
use recurlocal.Base.{
  not, ◌&&◌, ℕ, zero, suc, ◌+◌, ◌-◌, ◌<◌, ◌≡◌, ◌≢◌, refl, sym, ap, ◌∙◌, inl, inr, Bool, true, false,
  ◌==◌, ltb, ◌||◌, List, [], ◌∷◌, ◌++◌, none, some, if◌then◌else◌, get_elem?, get_or, take-append,
  drop-append, length, length-append, Bool-cases, arith,
}
use native.Mathlib.Nat.{add-zero, zero-add}
use mathlib.Core.Option.{some-injective}
use mathlib.Core.List.{append_assoc, append-nil}
use recurlocal.Base.Sort.{sort, contains, lower_bound, insert, Rising}
use recurlocal.Plan.{TransitAction, KernelIndex, TransitPlan}
use recurlocal.Plan.Index.{
  kernels_from, positions, add_groups, build_index, slice, group_at, finalize, before, after,
}

-- The keys of a built index rise, and are the kernels named.
contains-insert : (k x : ℕ) (ys : List ℕ) → contains k (insert ltb x ys) ≡ (x == k || contains k ys)
unfolding insert
contains-insert k x [] = refl
contains-insert k x (y ∷ ys) = ground (arith, contains-insert k x ys)

contains-sort : (k : ℕ) (xs : List ℕ) → contains k (sort ltb xs) ≡ contains k xs
unfolding sort
contains-sort k [] = refl
contains-sort k (x ∷ xs) =
    contains-insert k x (sort ltb xs) ∙ ap (λ b. x == k || b) (contains-sort k xs)

insert-Rising :
    (lo x : ℕ) (ys : List ℕ)
    → lo < x
    → Rising lo ys
    → contains x ys ≡ false
    → Rising lo (insert ltb x ys)
unfolding insert
insert-Rising lo x [] h r n = (h, tt)
insert-Rising lo x (y ∷ ys) h (r, rs) n = ground (arith, insert-Rising y x ys)

-- No number stands twice.
abbrev Distinct : List ℕ → Type 0
Distinct [] = Unit {0}
Distinct (x ∷ xs) = (0 < x) × (contains x xs ≡ false) × Distinct xs

sort-Rising : (xs : List ℕ) → Distinct xs → Rising 0 (sort ltb xs)
unfolding sort
sort-Rising [] d = tt
sort-Rising (x ∷ xs) (pos, new, d) =
    insert-Rising 0 x (sort ltb xs) pos (sort-Rising xs d) (contains-sort x xs ∙ new)

contains-append :
    (k : ℕ) (xs ys : List ℕ) → contains k (xs ++ ys) ≡ (contains k xs || contains k ys)
contains-append k [] ys = refl
contains-append k (x ∷ xs) ys = ground (arith, contains-append k xs ys)

Distinct-append_one :
    (xs : List ℕ) (x : ℕ) → 0 < x → contains x xs ≡ false → Distinct xs → Distinct (xs ++ (x ∷ []))
Distinct-append_one [] x p n d = (p, refl, tt)
Distinct-append_one (y ∷ ys) x p n (q, m, d) =
    (q, ground (arith, contains-append y ys (x ∷ [])), Distinct-append_one ys x p (ground arith) d)

Rising-lt : (lo k : ℕ) (keys : List ℕ) → Rising lo keys → contains k keys ≡ true → lo < k
Rising-lt lo k [] r c = cc
Rising-lt lo k (x ∷ xs) (h, r) c = ground (arith, Rising-lt x k xs r)

-- In rising keys a lower bound finds the key, if it is there.
lower_bound-get_elem? :
    (lo k : ℕ) (keys : List ℕ)
    → Rising lo keys
    → contains k keys ≡ true
    → get_elem? keys (lower_bound keys k) ≡ some k
unfolding lower_bound
lower_bound-get_elem? lo k [] r c = cc
lower_bound-get_elem? lo k (x ∷ xs) (h, r) c = elim (Bool-cases (ltb x k)) [
  | inl lt ↦ rw lt (lower_bound-get_elem? x k xs r (ground arith))
  | inr ge ↦ rw ge (ground (arith, Rising-lt x k xs r))
]

get_elem?-contains : (keys : List ℕ) (i k : ℕ) → get_elem? keys i ≡ some k → contains k keys ≡ true
get_elem?-contains [] i k e = cc
get_elem?-contains (x ∷ xs) zero k e = ground arith
get_elem?-contains (x ∷ xs) (suc i) k e = ground (arith, get_elem?-contains xs i k e)

get_or-append_lt :
    (xs ys : List ℕ) (i d : ℕ) → i < length xs → get_or (xs ++ ys) i d ≡ get_or xs i d
get_or-append_lt [] ys i d h = absurd (omega arith)
get_or-append_lt (x ∷ xs) ys zero d h = refl
get_or-append_lt (x ∷ xs) ys (suc i) d h = get_or-append_lt xs ys i d (omega arith)

get_or-append_one : (xs : List ℕ) (y d : ℕ) → get_or (xs ++ (y ∷ [])) (length xs) d ≡ y
get_or-append_one [] y d = refl
get_or-append_one (x ∷ xs) y d = get_or-append_one xs y d

get_or-before :
    (xs ys : List ℕ) (y i d : ℕ)
    → i < length xs
    → get_or ((xs ++ (y ∷ [])) ++ ys) i d ≡ get_or xs i d
get_or-before xs ys y i d h =
    get_or-append_lt (xs ++ (y ∷ [])) ys i d (omega (arith, length-append xs (y ∷ [])))
    ∙ get_or-append_lt xs (y ∷ []) i d h

get_or-there :
    (xs ys : List ℕ) (y i d : ℕ) → i ≡ length xs → get_or ((xs ++ (y ∷ [])) ++ ys) i d ≡ y
get_or-there xs ys y i d h =
    get_or-append_lt (xs ++ (y ∷ [])) ys i d (omega (arith, length-append xs (y ∷ [])))
    ∙ rw h (get_or-append_one xs y d)

-- A slice between the lengths of a prefix and of a longer prefix is what the longer one adds.
slice-append : (xs ys zs : List ℕ) → slice ((xs ++ ys) ++ zs) (length xs) (length (xs ++ ys)) ≡ ys
unfolding slice
slice-append xs ys zs =
    let n : length (xs ++ ys) - length xs ≡ length ys = omega (arith, length-append xs ys) in
    rw (n, append_assoc xs ys zs, drop-append xs (ys ++ zs)) (take-append ys zs)

group_at_key :
    (x : KernelIndex) (k : ℕ)
    → get_elem? x.keys (lower_bound x.keys k) ≡ some k
    → group_at x k
      ≡ some (
          slice x.index
            (get_or x.offsets (lower_bound x.keys k) 0)
            (get_or x.offsets (suc (lower_bound x.keys k)) 0))
unfolding group_at
group_at_key x k e = ground (arith, e)

group_at_absent : (x : KernelIndex) (k : ℕ) → contains k x.keys ≡ false → group_at x k ≡ none
unfolding group_at
group_at_absent x k c = ground (arith, get_elem?-contains x.keys (lower_bound x.keys k) k)

module _ {W : Type 0} (at : TransitAction W → ℕ) where
  -- Some action is placed at the kernel.
  unfoldable pub is_named : ℕ → List (TransitAction W) → Bool
  is_named k [] = false
  is_named k (a ∷ rest) = at a == k || is_named k rest

  kernels_from-Distinct :
      (actions : List (TransitAction W)) (seen : List ℕ)
      → Distinct seen
      → Distinct (kernels_from at seen actions)
  unfolding kernels_from
  kernels_from-Distinct [] seen d = d
  kernels_from-Distinct (a ∷ rest) seen d =
      kernels_from-Distinct rest
        (if at a == 0 || contains (at a) seen then seen else seen ++ (at a ∷ []))
        (ground (arith, Distinct-append_one seen (at a)))

  contains-kernels_from :
      (k : ℕ) (actions : List (TransitAction W)) (seen : List ℕ)
      → k ≢ 0
      → contains k (kernels_from at seen actions) ≡ (contains k seen || is_named k actions)
  unfolding kernels_from is_named
  contains-kernels_from k [] seen nz = ground arith
  contains-kernels_from k (a ∷ rest) seen nz =
      contains-kernels_from k rest
        (if at a == 0 || contains (at a) seen then seen else seen ++ (at a ∷ [])) nz
      ∙ ground (arith, contains-append k seen (at a ∷ []))

  contains_zero :
      (actions : List (TransitAction W)) (seen : List ℕ)
      → contains 0 seen ≡ false
      → contains 0 (kernels_from at seen actions) ≡ false
  unfolding kernels_from
  contains_zero [] seen h = h
  contains_zero (a ∷ rest) seen h =
      contains_zero rest (if at a == 0 || contains (at a) seen then seen else seen ++ (at a ∷ []))
        (ground (arith, contains-append 0 seen (at a ∷ [])))

  add_groups-keys :
      (actions : List (TransitAction W)) (ks : List ℕ) (x : KernelIndex)
      → (add_groups at actions ks x).keys ≡ x.keys ++ ks
  unfolding add_groups
  add_groups-keys actions [] x = sym (append-nil x.keys)
  add_groups-keys actions (k ∷ ks) x =
      add_groups-keys actions ks _ ∙ append_assoc x.keys (k ∷ []) ks

  -- The index and the offsets only grow.
  add_groups_grow :
      (actions : List (TransitAction W)) (ks : List ℕ) (x : KernelIndex)
      → let q = add_groups at actions ks x in
        (m : List ℕ) × (n : List ℕ) × (q.index ≡ x.index ++ m) × (q.offsets ≡ x.offsets ++ n)
  unfolding add_groups
  add_groups_grow actions [] x = ([], [], sym (append-nil x.index), sym (append-nil x.offsets))
  add_groups_grow actions (k ∷ ks) x =
      let more = positions at k 0 actions in
      let grown = x.index ++ more in
      let (m, n, e, f) = add_groups_grow actions ks (record {
        index = grown;
        keys = x.keys ++ (k ∷ []);
        offsets = x.offsets ++ (length grown ∷ []);
      }) in
      (
        more ++ m,
        length grown ∷ n,
        e ∙ append_assoc x.index more m,
        f ∙ append_assoc x.offsets (length grown ∷ []) n,
      )

  -- One offset more than keys, and the last one is the length of the index.
  record IsIndex (x : KernelIndex) : Type 0 where
    one_more : length x.offsets ≡ suc (length x.keys)
    last : get_or x.offsets (length x.keys) 0 ≡ length x.index

  abbrev grow : List (TransitAction W) → ℕ → KernelIndex → KernelIndex
  grow actions k x =
      let grown = x.index ++ positions at k 0 actions in
      record {
        index = grown;
        keys = x.keys ++ (k ∷ []);
        offsets = x.offsets ++ (length grown ∷ []);
      }

  grow-IsIndex :
      (actions : List (TransitAction W)) (k : ℕ) (x : KernelIndex)
      → IsIndex x
      → IsIndex (grow actions k x)
  grow-IsIndex actions k x v = record {
    one_more = omega (
      arith,
      length-append x.offsets (length (x.index ++ positions at k 0 actions) ∷ []),
      length-append x.keys (k ∷ []),
      v.one_more,
    );
    last =
        let n : length (x.keys ++ (k ∷ [])) ≡ length x.offsets =
          omega (arith, length-append x.keys (k ∷ []), v.one_more) in
        rw n (get_or-append_one x.offsets (length (x.index ++ positions at k 0 actions)) 0);
  }

  -- The slice of group `j` is the positions of the kernel that has key `j`.
  groups_slice :
      (actions : List (TransitAction W)) (ks : List ℕ) (x : KernelIndex) (j k : ℕ)
      → IsIndex x
      → get_elem? ks j ≡ some k
      → let q = add_groups at actions ks x in
        slice q.index
          (get_or q.offsets (length x.keys + j) 0)
          (get_or q.offsets (suc (length x.keys + j)) 0)
        ≡ positions at k 0 actions
  unfolding add_groups
  groups_slice actions [] x j k v e = cc
  groups_slice actions (k' ∷ ks) x zero k v e =
      let more = positions at k' 0 actions in
      let (m, n, ei, eo) = add_groups_grow actions ks (grow actions k' x) in
      let from : get_or ((x.offsets ++ (length (x.index ++ more) ∷ [])) ++ n) (length x.keys + 0) 0
          ≡ length x.index =
        get_or-before x.offsets n (length (x.index ++ more)) _ 0 (omega (arith, v.one_more))
        ∙ (ap (λ i. get_or x.offsets i 0) (add-zero (length x.keys)) ∙ v.last) in
      let to : get_or ((x.offsets ++ (length (x.index ++ more) ∷ [])) ++ n)
            (suc (length x.keys + 0)) 0
          ≡ length (x.index ++ more) =
        get_or-there x.offsets n (length (x.index ++ more)) _ 0 (omega (arith, v.one_more)) in
      rw (ei, eo, from, to)
        (slice-append x.index more m ∙ ap (λ y. positions at y 0 actions) (some-injective _ _ e))
  groups_slice actions (k' ∷ ks) x (suc j) k v e =
      let n : length (x.keys ++ (k' ∷ [])) + j ≡ length x.keys + suc j =
        omega (arith, length-append x.keys (k' ∷ [])) in
      rw (← n) (groups_slice actions ks (grow actions k' x) j k (grow-IsIndex actions k' x v) e)

  positions_unnamed :
      (k i : ℕ) (actions : List (TransitAction W))
      → is_named k actions ≡ false
      → positions at k i actions ≡ []
  unfolding positions is_named
  positions_unnamed k i [] h = refl
  positions_unnamed k i (a ∷ rest) h = ground (arith, positions_unnamed k (i + 1) rest)

  build_index-keys :
      (actions : List (TransitAction W))
      → (build_index at actions).keys ≡ sort ltb (kernels_from at [] actions)
  unfolding build_index
  build_index-keys actions = add_groups-keys actions _ _

  contains-keys :
      (actions : List (TransitAction W)) (k : ℕ)
      → contains k (build_index at actions).keys ≡ (not (k == 0) && is_named k actions)
  contains-keys actions k =
      rw (build_index-keys actions, contains-sort k (kernels_from at [] actions))
        (ground (arith, contains-kernels_from k actions [], contains_zero actions []))

  keys-Rising : (actions : List (TransitAction W)) → Rising 0 (build_index at actions).keys
  keys-Rising actions =
      rw (build_index-keys actions)
        (sort-Rising (kernels_from at [] actions) (kernels_from-Distinct actions [] tt))

  key_slice :
      (actions : List (TransitAction W)) (j k : ℕ)
      → get_elem? (build_index at actions).keys j ≡ some k
      → let q = build_index at actions in
        slice q.index (get_or q.offsets j 0) (get_or q.offsets (suc j) 0) ≡ positions at k 0 actions
  unfolding build_index
  key_slice actions j k e = rw (zero-add j) at (
      groups_slice actions (sort ltb (kernels_from at [] actions))
        (record { index = []; keys = []; offsets = 0 ∷ [] }) j k
        (record { one_more = refl; last = refl })
        (rw
          (add_groups-keys actions (sort ltb (kernels_from at [] actions))
            (record { index = []; keys = []; offsets = 0 ∷ [] }))
          at e))

  -- The walk over a kernel's group visits the actions placed at it, in plan order.
  pub group_at-build_index :
      (actions : List (TransitAction W)) (k : ℕ)
      → group_at (build_index at actions) k
        ≡ (if not (k == 0) && is_named k actions then some (positions at k 0 actions) else none)
  group_at-build_index actions k = elim (Bool-cases (contains k (build_index at actions).keys)) [
    | inl c ↦
        let at_key =
          lower_bound-get_elem? 0 k (build_index at actions).keys (keys-Rising actions) c in
        rw (← contains-keys actions k, c)
          (group_at_key (build_index at actions) k at_key
            ∙ ap some (key_slice actions (lower_bound (build_index at actions).keys k) k at_key))
    | inr c ↦ rw (← contains-keys actions k, c) (group_at_absent (build_index at actions) k c)
  ]

module _ {W : Type 0} where
  -- After `finalize` the executor's lookup before a kernel gives the positions of the actions with
  -- that `before_kernel`, in plan order, and nothing where there are none or the kernel is invalid.
  pub before-finalize :
      (p : TransitPlan W) (k : ℕ)
      → before (finalize p) k ≡ (
          if not (k == 0) && is_named (λ a. a.before_kernel) k p.actions
          then some (positions (λ a. a.before_kernel) k 0 p.actions)
          else none)
  unfolding before finalize
  before-finalize p k = group_at-build_index (λ a. a.before_kernel) p.actions k

  -- After `finalize` the lookup after a kernel gives the positions of the actions with that
  -- `after_kernel`, in plan order, and nothing where there are none or the kernel is invalid.
  pub after-finalize :
      (p : TransitPlan W) (k : ℕ)
      → after (finalize p) k ≡ (
          if not (k == 0) && is_named (λ a. a.after_kernel) k p.actions
          then some (positions (λ a. a.after_kernel) k 0 p.actions)
          else none)
  unfolding after finalize
  after-finalize p k = group_at-build_index (λ a. a.after_kernel) p.actions k
