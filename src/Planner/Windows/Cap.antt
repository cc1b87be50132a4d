-- ===== src/Planner/Windows/Cap.antt =====
-- What `cap_windows_per_kernel` of planners/common.cpp leaves at each kernel.
use recurlocal.Base.{
  All-both, ◌∙◌, ==_iff, All-mono, sym, subst, map, ◌<◌, ◌⊎◌, ap, ℕ, ◌≤◌, ◌≡◌, refl, Bool, true,
  false, not, ◌&&◌, ◌||◌, ◌==◌, leb, List, [], ◌∷◌, ◌++◌, length, any, All, filterb, drop,
  Bool-cases, ==_refl, arith, inl, inr,
}
use recurlocal.Base.Sort.{contains, All-sort, sort}
use recurlocal.Base.Filter
use recurlocal.Plan.{TransitPlan, TransitAction}
use recurlocal.Planner.Windows

or_true : (b : Bool) → (b || true) ≡ true
or_true true = refl
or_true false = refl

leb_le : (a b : ℕ) → leb a b ≡ true → a ≤ b
leb_le a b h = ground arith

and_true : (a b : Bool) → (a && b) ≡ true → (a ≡ true) × (b ≡ true)
and_true a b h = (ground (arith, h), ground (arith, h))

any-append : {A : Type 0} (p : A → Bool) (xs ys : List A) → any p (xs ++ ys) ≡ any p xs || any p ys
any-append p [] ys = refl
any-append p (x ∷ xs) ys = ground (arith, any-append p xs ys)

contains-append : (k : ℕ) (xs ys : List ℕ) → contains k (xs ++ ys) ≡ contains k xs || contains k ys
contains-append k [] ys = refl
contains-append k (x ∷ xs) ys = ground (arith, contains-append k xs ys)

module _ {W : Type 0} where
  -- A window of the plan before the kernel.
  abbrev pub is_window_at : ℕ → TransitAction W → Bool
  is_window_at kernel a = Windows.windowed a && a.before_kernel == kernel

  keep_from-kept :
      (dropped : List Windows.Binding) (survivors : List ℕ) (actions : List (TransitAction W))
      (told : List ℕ)
      → (Windows.keep_from dropped survivors told actions).0
        ≡ filterb (λ a. not (Windows.is_lost dropped survivors a)) actions
  unfolding Windows.keep_from
  keep_from-kept dropped survivors [] told = refl
  keep_from-kept dropped survivors (a ∷ rest) told =
      elim (Bool-cases (Windows.is_lost dropped survivors a)) [
        | inl e ↦ rw e (keep_from-kept dropped survivors rest _)
        | inr e ↦ rw e (ap (λ xs. a ∷ xs) (keep_from-kept dropped survivors rest _))
      ]

  -- Every kernel that carries a window is listed.
  kernels_of-contains :
      (kernel : ℕ) (actions : List (TransitAction W)) (seen : List ℕ)
      → (contains kernel seen ≡ true) ⊎ (0 < length (Windows.windows_at kernel actions))
      → contains kernel (Windows.kernels_of seen actions) ≡ true
  kernels_of-contains kernel [] seen (inl e) = e
  kernels_of-contains kernel [] seen (inr h) = ground arith
  kernels_of-contains kernel (a ∷ rest) seen h =
      kernels_of-contains kernel rest _
        (ground (arith, h, contains-append kernel seen (a.before_kernel ∷ [])))

  is_in-map :
      (kernel : ℕ) (xs : List (TransitAction W))
      → All (λ a. Windows.is_in (a.tensor, kernel) (map (λ b. (b.tensor, kernel)) xs) ≡ true) xs
  is_in-map kernel [] = tt
  is_in-map kernel (a ∷ rest) = (
    ground (arith, ==_refl a.tensor, ==_refl kernel),
    All-mono _ rest (is_in-map kernel rest) (λ b h. ground (arith, h)),
  )

  -- A window whose binding is dropped is lost.
  lost_here :
      (dropped : List Windows.Binding) (survivors : List ℕ) (kernel : ℕ) (a : TransitAction W)
      → is_window_at kernel a ≡ true
      → Windows.is_in (a.tensor, kernel) dropped ≡ true
      → not (Windows.is_lost dropped survivors a) ≡ false
  unfolding Windows.is_lost
  lost_here dropped survivors kernel a w h =
      let (e, f) = and_true (Windows.windowed a) (a.before_kernel == kernel) w in
      let at = sym ((==_iff a.before_kernel kernel).0 f) in
      let found : Windows.is_in (a.tensor, a.before_kernel) dropped ≡ true =
        subst (λ j. Windows.is_in (a.tensor, j) dropped ≡ true) at h in
      ground (arith, e, found)

  module _ (better : TransitAction W → TransitAction W → Bool) (limit : ℕ)
      (actions : List (TransitAction W)) where
    -- What loses at a listed kernel is dropped.
    dropped_from-lost :
        (binding : Windows.Binding) (kernel : ℕ) (kernels : List ℕ)
        → Windows.is_in binding (Windows.lost_at better limit actions kernel) ≡ true
        → contains kernel kernels ≡ true
        → Windows.is_in binding (Windows.dropped_from better limit actions kernels) ≡ true
    dropped_from-lost binding kernel [] h e = cc
    dropped_from-lost binding kernel (k ∷ ks) h e =
        let here = Windows.lost_at better limit actions k in
        let rest = Windows.dropped_from better limit actions ks in
        let split = any-append (λ b. b.0 == binding.0 && b.1 == binding.1) here rest in
        elim (Bool-cases (k == kernel)) [
          | inl same ↦
              let found =
                subst (λ j. Windows.is_in binding (Windows.lost_at better limit actions j) ≡ true)
                  (sym ((==_iff k kernel).0 same)) h in
              split ∙ rw found refl
          | inr other ↦
              split ∙ rw (dropped_from-lost binding kernel ks h (ground arith)) (or_true _)
        ]

    -- The windows that a plan loses at a crowded kernel are those ranked from the limit on.
    ranked_out-lost :
        (dropped : List Windows.Binding) (survivors : List ℕ) (kernel : ℕ)
        → ((a : TransitAction W)
            → Windows.is_in (a.tensor, kernel) (Windows.lost_at better limit actions kernel) ≡ true
            → Windows.is_in (a.tensor, kernel) dropped ≡ true)
        → leb (length (Windows.windows_at kernel actions)) limit ≡ false
        → All
            (λ a. not (Windows.is_lost dropped survivors a) ≡ false)
            (drop limit (sort better (Windows.windows_at kernel actions)))
    unfolding Windows.is_lost
    ranked_out-lost dropped survivors kernel sub crowded =
        let here = Windows.windows_at kernel actions in
        let out = drop limit (sort better here) in
        let at =
          Filter.All-drop (λ a. is_window_at kernel a ≡ true) limit (sort better here)
            (All-sort (λ a. is_window_at kernel a ≡ true) better here
              (Filter.All-filterb (is_window_at kernel) actions)) in
        let named = All-mono _ out (is_in-map kernel out) (λ a h. sub a (rw crowded h)) in
        All-mono _ out (All-both _ _ out at named)
          (λ a (w, h). lost_here dropped survivors kernel a w h)

module _ {W : Type 0} where
  crowded_or_not :
      (better : TransitAction W → TransitAction W → Bool) (limit : ℕ)
      (actions : List (TransitAction W)) (dropped : List Windows.Binding) (survivors : List ℕ)
      (kernel : ℕ)
      → ((a : TransitAction W)
          → Windows.is_in (a.tensor, kernel) (Windows.lost_at better limit actions kernel) ≡ true
          → Windows.is_in (a.tensor, kernel) dropped ≡ true)
      → length (
          Windows.windows_at kernel
            (filterb (λ a. not (Windows.is_lost dropped survivors a)) actions))
        ≤ limit
  crowded_or_not better limit actions dropped survivors kernel sub =
      let keeps : TransitAction W → Bool = λ a. not (Windows.is_lost dropped survivors a) in
      let here = Windows.windows_at kernel actions in
      let swap = Filter.length-filterb-filterb (is_window_at kernel) keeps actions in
      elim (Bool-cases (leb (length here) limit)) [
        | inl few ↦
            omega (arith, swap, Filter.length-filterb keeps here, leb_le (length here) limit few)
        | inr crowded ↦
            let none_kept =
              Filter.length-filterb_none keeps _
                (ranked_out-lost better limit actions dropped survivors kernel sub crowded) in
            omega (
              arith,
              swap,
              none_kept,
              Filter.length-filterb-sort keeps better here,
              Filter.length-filterb-drop keeps limit (sort better here),
            )
      ]

  -- Only at a kernel with a window is a binding lost.
  lost-listed :
      (better : TransitAction W → TransitAction W → Bool) (limit : ℕ)
      (actions : List (TransitAction W)) (binding : Windows.Binding) (kernel : ℕ)
      → Windows.is_in binding (Windows.lost_at better limit actions kernel) ≡ true
      → contains kernel (Windows.kernels_of [] actions) ≡ true
  lost-listed better limit actions binding kernel h =
      let here = Windows.windows_at kernel actions in
      elim (Bool-cases (leb (length here) limit)) [
        | inl few ↦ ground (arith, few, h)
        | inr crowded ↦ kernels_of-contains kernel actions [] (inr (ground arith))
      ]

  -- Where nothing is dropped, all is kept.
  keep_all :
      (dropped : List Windows.Binding) (survivors : List ℕ) (actions : List (TransitAction W))
      → length dropped ≡ 0
      → filterb (λ a. not (Windows.is_lost dropped survivors a)) actions ≡ actions
  unfolding Windows.is_lost
  keep_all dropped survivors [] e = refl
  keep_all [] survivors (a ∷ rest) e = ground (arith, keep_all [] survivors rest e)
  keep_all (b ∷ bs) survivors (a ∷ rest) e = grind arith

  -- `cap_windows_per_kernel` with a positive limit, for every ranking of the windows: of the actions
  -- kept, at most `limit` are windows before any one kernel.
  pub cap_windows-bound :
      (better : TransitAction W → TransitAction W → Bool) (limit : ℕ) (p : TransitPlan W)
      (kernel : ℕ)
      → length (Windows.windows_at kernel (Windows.cap_windows better limit p).actions) ≤ limit
  unfolding Windows.cap_windows
  cap_windows-bound better limit p kernel =
      let kernels = Windows.kernels_of [] p.actions in
      let dropped = Windows.dropped_from better limit p.actions kernels in
      let survivors = Windows.survivors_from dropped [] p.actions in
      let bound = crowded_or_not better limit p.actions dropped survivors kernel (λ a h.
        dropped_from-lost better limit p.actions (a.tensor, kernel) kernel kernels h
          (lost-listed better limit p.actions (a.tensor, kernel) kernel h)) in
      elim (Bool-cases (length dropped == 0)) [
        | inl none_lost ↦ rw none_lost (
            subst (λ xs. length (Windows.windows_at kernel xs) ≤ limit)
              (keep_all dropped survivors p.actions (ground (arith, none_lost))) bound)
        | inr some_lost ↦ rw some_lost (
            subst (λ xs. length (Windows.windows_at kernel xs) ≤ limit)
              (sym (keep_from-kept dropped survivors p.actions [])) bound)
      ]
