-- ===== src/Planner/Admit/Decided.antt =====
-- Which candidates the ordered and the quota rule of planners/budgeted/budgeted_planner.cpp decide on.
use recurlocal.Base.{
  sym, All, ℕ, zero, suc, ◌+◌, ◌≡◌, ◌∙◌, refl, ap, ◌⊎◌, inl, inr, Bool, ◌&&◌, ◌==◌, leb, ltb, List,
  [], ◌∷◌, ◌++◌, some, get_elem?, length, if◌then◌else◌, Bool-cases, min, arith, ◌<◌,
  get_elem?-some,
}
use recurlocal.Base.Sort.{sort, insert}
use recurlocal.Double.{Double}
use recurlocal.Plan.{TransitDecline, DeclineReason, budget_exhausted, below_min_hit_ratio}
use recurlocal.Planner.{TransitPlannerConfig}
use recurlocal.Planner.Candidates.{Candidate}
use recurlocal.Planner.Cost.{ratio}
use recurlocal.Planner.Admit

-- How often a number stands in a list.
unfoldable pub occurrences : ℕ → List ℕ → ℕ
occurrences j [] = 0
occurrences j (i ∷ is) = let rest = occurrences j is in if i == j then suc rest else rest

occurrences-append :
    (j : ℕ) (is ks : List ℕ) → occurrences j (is ++ ks) ≡ occurrences j is + occurrences j ks
unfolding occurrences
occurrences-append j [] ks = omega arith
occurrences-append j (i ∷ is) ks = ground (arith, occurrences-append j is ks)

occurrences-insert :
    (less : ℕ → ℕ → Bool) (j i : ℕ) (is : List ℕ)
    → occurrences j (insert less i is) ≡ occurrences j (i ∷ is)
unfolding occurrences insert
occurrences-insert less j i [] = refl
occurrences-insert less j i (k ∷ is) = ground (arith, occurrences-insert less j i is)

occurrences-sort :
    (less : ℕ → ℕ → Bool) (j : ℕ) (is : List ℕ) → occurrences j (sort less is) ≡ occurrences j is
unfolding occurrences sort
occurrences-sort less j [] = refl
occurrences-sort less j (i ∷ is) =
    ground (arith, occurrences-insert less j i (sort less is), occurrences-sort less j is)

occurrences-indices_from :
    (j i n : ℕ)
    → occurrences j (Admit.indices_from i n) ≡ (if leb i j && ltb j (i + n) then 1 else 0)
unfolding occurrences
occurrences-indices_from j i zero = ground arith
occurrences-indices_from j i (suc n) = ground (arith, occurrences-indices_from j (suc i) n)

-- The declines are those of the candidates at the given positions, in that order, each for one of the reasons.
abbrev pub AreDeclines :
    (DeclineReason → Type 0) → List Candidate → List ℕ → List TransitDecline → Type 0
AreDeclines reasons cs [] [] = Unit {0}
AreDeclines reasons cs [] (t ∷ ts) = ⊥
AreDeclines reasons cs (i ∷ is) [] = ⊥
AreDeclines reasons cs (i ∷ is) (t ∷ ts) =
    ((k : Candidate) × (reason : DeclineReason) × (get_elem? cs i ≡ some k)
      × reasons reason
      × (t ≡ Admit.decline_of k reason))
    × AreDeclines reasons cs is ts

abbrev pub ForBudget : DeclineReason → Type 0
ForBudget reason = reason ≡ budget_exhausted

abbrev pub ForBudgetOrHits : DeclineReason → Type 0
ForBudgetOrHits reason = (reason ≡ budget_exhausted) ⊎ (reason ≡ below_min_hit_ratio)

AreDeclines-snoc :
    (reasons : DeclineReason → Type 0) (cs : List Candidate) (is : List ℕ)
    (ts : List TransitDecline) (i : ℕ) (k : Candidate) (reason : DeclineReason)
    → AreDeclines reasons cs is ts
    → get_elem? cs i ≡ some k
    → reasons reason
    → AreDeclines reasons cs (is ++ (i ∷ [])) (ts ++ (Admit.decline_of k reason ∷ []))
AreDeclines-snoc reasons cs [] [] i k why h e r = ((k, why, e, r, refl), tt)
AreDeclines-snoc reasons cs [] (t ∷ ts) i k why h e r = absurd h
AreDeclines-snoc reasons cs (l ∷ is) [] i k why h e r = absurd h
AreDeclines-snoc reasons cs (l ∷ is) (t ∷ ts) i k why (one, h) e r =
    (one, AreDeclines-snoc reasons cs is ts i k why h e r)

append_assoc {ℓ} : {A : Type ℓ} (xs ys zs : List A) → (xs ++ ys) ++ zs ≡ xs ++ (ys ++ zs)
append_assoc [] ys zs = refl
append_assoc (x ∷ xs) ys zs = ap (λ l. x ∷ l) (append_assoc xs ys zs)

append_nil {ℓ} : {A : Type ℓ} (xs : List A) → xs ++ [] ≡ xs
append_nil [] = refl
append_nil (x ∷ xs) = ap (λ l. x ∷ l) (append_nil xs)

-- 1 at a position and 0 elsewhere.
abbrev at : ℕ → ℕ → ℕ
at i j = if i == j then 1 else 0

module _ {W : Type 0} where
  unfoldable pub granted_indices : List (Admit.Grant W) → List ℕ
  granted_indices [] = []
  granted_indices (g ∷ gs) = g.index ∷ granted_indices gs

  granted_indices-append :
      (gs hs : List (Admit.Grant W))
      → granted_indices (gs ++ hs) ≡ granted_indices gs ++ granted_indices hs
  unfolding granted_indices
  granted_indices-append [] hs = refl
  granted_indices-append (g ∷ gs) hs = ap (λ l. g.index ∷ l) (granted_indices-append gs hs)

  -- After the declines that were there, the filling has declines of some candidates; together with the grants
  -- they name the position `j` as often as `times j` says.
  abbrev pub Decides :
      (DeclineReason → Type 0)
      → List Candidate
      → List TransitDecline
      → (ℕ → ℕ)
      → Admit.Filling W
      → Type 0
  Decides reasons cs declined times s =
      (is : List ℕ) × (ts : List TransitDecline) × (s.declined ≡ declined ++ ts)
      × AreDeclines reasons cs is ts
      × ((j : ℕ) → occurrences j (granted_indices s.grants) + occurrences j is ≡ times j)

  -- Each candidate is granted or declined, and that once.
  abbrev pub DecidesEach :
      (DeclineReason → Type 0) → List Candidate → List TransitDecline → Admit.Filling W → Type 0
  DecidesEach reasons cs declined s =
      Decides reasons cs declined (λ j. if ltb j (length cs) then 1 else 0) s

  module _ (reasons : DeclineReason → Type 0) (cs : List Candidate)
      (declined : List TransitDecline) where
    grant_one-Decides :
        (times : ℕ → ℕ) (i granted : ℕ) (hit : W) (s : Admit.Filling W)
        → Decides reasons cs declined times s
        → Decides reasons cs declined (λ j. at i j + times j) (Admit.grant_one i granted hit s)
    unfolding granted_indices occurrences
    grant_one-Decides times i granted hit s (is, ts, e, all, counts) =
        let new : Admit.Grant W = record { index = i; bytes = granted; hit_ratio = hit } in
        (
          is,
          ts,
          e,
          all,
          λ j.
              rw (granted_indices-append s.grants (new ∷ [])) (
                ground (arith, occurrences-append j (granted_indices s.grants) (i ∷ []), counts j)),
        )

    decline_one-Decides :
        (times : ℕ → ℕ) (i : ℕ) (k : Candidate) (reason : DeclineReason) (s : Admit.Filling W)
        → get_elem? cs i ≡ some k
        → reasons reason
        → Decides reasons cs declined times s
        → Decides reasons cs declined (λ j. at i j + times j) (Admit.decline_one k reason s)
    unfolding occurrences
    decline_one-Decides times i k reason s found r (is, ts, e, all, counts) = (
      is ++ (i ∷ []),
      ts ++ (Admit.decline_of k reason ∷ []),
      ap (λ l. l ++ (Admit.decline_of k reason ∷ [])) e
          ∙ append_assoc declined ts (Admit.decline_of k reason ∷ []),
      AreDeclines-snoc reasons cs is ts i k reason all found r,
      λ j. ground (arith, occurrences-append j is (i ∷ []), counts j),
    )

    -- A loop that decides on the candidate it is at decides on all of an order.
    through-Decides :
        (offer : ℕ → Candidate → Admit.Filling W → Admit.Filling W)
        → ((times : ℕ → ℕ) (i : ℕ) (k : Candidate) (s : Admit.Filling W)
            → get_elem? cs i ≡ some k
            → Decides reasons cs declined times s
            → Decides reasons cs declined (λ j. at i j + times j) (offer i k s))
        → (order : List ℕ) (times : ℕ → ℕ) (s : Admit.Filling W) → All (λ i. i < length cs) order
        → Decides reasons cs declined times s
        → Decides reasons cs declined
            (λ j. occurrences j order + times j)
            (Admit.through offer cs order s)
    unfolding occurrences
    through-Decides offer one [] times s h (is, ts, e, all, counts) =
        (is, ts, e, all, λ j. omega (arith, counts j))
    through-Decides offer one (i ∷ order) times s (lt, h) p =
        let (k, found) = get_elem?-some cs i lt in
        let (is, ts, e, all, counts) =
          through-Decides offer one order (λ j. at i j + times j) (offer i k s) h
            (one times i k s found p) in
        rw (found, Admit.through) (is, ts, e, all, λ j. ground (arith, counts j))

module _ {W : Type 0} ⦃d : Double W⦄ (c : TransitPlannerConfig W) (cs : List Candidate)
    (declined : List TransitDecline) (times : ℕ → ℕ) where
  pub offer_ordered-Decides :
      (i : ℕ) (k : Candidate) (s : Admit.Filling W)
      → get_elem? cs i ≡ some k
      → Decides ForBudgetOrHits cs declined times s
      → Decides ForBudgetOrHits cs declined (λ j. at i j + times j) (Admit.offer_ordered c i k s)
  unfolding Admit.offer_ordered
  offer_ordered-Decides i k s found h =
      let granted = min s.remaining k.bytes in
      elim (Bool-cases (granted == 0)) [
        | inl z ↦ rw z (
            decline_one-Decides ForBudgetOrHits cs declined times i k budget_exhausted s found
              (inl refl) h)
        | inr z ↦
            elim (Bool-cases (d.lt (d.mul c.hit_ratio (ratio granted k.bytes)) c.min_hit_ratio)) [
              | inl low ↦
                  rw (z, low)
                    (decline_one-Decides ForBudgetOrHits cs declined times i k below_min_hit_ratio s
                      found (inr refl) h)
              | inr fine ↦
                  rw (z, fine)
                    (grant_one-Decides ForBudgetOrHits cs declined times i granted c.hit_ratio s h)
            ]
      ]

  pub offer_quota-Decides :
      (i : ℕ) (k : Candidate) (s : Admit.Filling W)
      → get_elem? cs i ≡ some k
      → Decides ForBudget cs declined times s
      → Decides ForBudget cs declined (λ j. at i j + times j) (Admit.offer_quota c i k s)
  unfolding Admit.offer_quota
  offer_quota-Decides i k s found h = elim (Bool-cases (ltb s.remaining k.bytes)) [
    | inl z ↦
        rw z (decline_one-Decides ForBudget cs declined times i k budget_exhausted s found refl h)
    | inr z ↦ rw z (grant_one-Decides ForBudget cs declined times i k.bytes c.hit_ratio s h)
  ]

module _ {W : Type 0} (reasons : DeclineReason → Type 0) (cs : List Candidate)
    (declined : List TransitDecline) where
  -- Over the sorted candidates, from a filling that has decided on none.
  pub through-DecidesEach :
      (offer : ℕ → Candidate → Admit.Filling W → Admit.Filling W)
      → ((times : ℕ → ℕ) (i : ℕ) (k : Candidate) (s : Admit.Filling W)
          → get_elem? cs i ≡ some k
          → Decides reasons cs declined times s
          → Decides reasons cs declined (λ j. at i j + times j) (offer i k s))
      → (less : Candidate → Candidate → Bool) (budget : ℕ)
      → All (λ i. i < length cs) (Admit.order_by less cs)
      → DecidesEach reasons cs declined
          (Admit.through offer cs (Admit.order_by less cs) (Admit.begin budget declined))
  unfolding occurrences granted_indices
  through-DecidesEach offer one less budget bound =
      let (is, ts, e, all, counts) =
        through-Decides reasons cs declined offer one (Admit.order_by less cs) (λ j. 0)
          (Admit.begin budget declined) bound
          ([], [], sym (append_nil declined), tt, λ j. omega arith) in
      (
        is,
        ts,
        e,
        all,
        λ j. ground (
          arith,
          counts j,
          occurrences-sort (Admit.less_at less cs) j (Admit.indices_from 0 (length cs)),
          occurrences-indices_from j 0 (length cs),
        ),
      )
