-- ===== src/Planner/Admit/Budget.antt =====
-- What the ordered and the quota rule of planners/budgeted/budgeted_planner.cpp do with the budget.
use recurlocal.Planner.Admit.{ratio}
use recurlocal.Base.{
  ◌==◌, ltb, min, ℕ, zero, suc, ◌+◌, ◌≡◌, refl, ◌≤◌, ◌<◌, ◌⊎◌, inl, inr, Bool, List, [], ◌∷◌, ◌++◌,
  some, get_elem?, length, All, All-append, Option-cases, Bool-cases, arith,
}
use recurlocal.Base.Sort.{All-sort}
use recurlocal.Double.{Double}
use recurlocal.Plan.{TransitDecline}
use recurlocal.Planner.{TransitPlannerConfig}
use recurlocal.Planner.Candidates.{Candidate}
use recurlocal.Planner.Admit
use recurlocal.Planner.Admit.Decided.{
  DecidesEach, ForBudget, ForBudgetOrHits, through-DecidesEach, offer_ordered-Decides,
  offer_quota-Decides,
}

le_total : (a b : ℕ) → (a ≤ b) ⊎ (b ≤ a)
le_total a b = ground arith

module _ {W : Type 0} where
  abbrev pub granted_bytes : List (Admit.Grant W) → ℕ
  granted_bytes [] = 0
  granted_bytes (g ∷ gs) = g.bytes + granted_bytes gs

  granted_bytes-append :
      (gs hs : List (Admit.Grant W))
      → granted_bytes (gs ++ hs) ≡ granted_bytes gs + granted_bytes hs
  granted_bytes-append [] hs = omega arith
  granted_bytes-append (g ∷ gs) hs = omega (arith, granted_bytes-append gs hs)

  -- A grant is for a candidate, and for no more than it.
  pub Fits : List Candidate → Admit.Grant W → Type 0
  Fits cs g = (k : Candidate) × (get_elem? cs g.index ≡ some k) × (g.bytes ≤ k.bytes)

  pub Whole : List Candidate → Admit.Grant W → Type 0
  Whole cs g = (k : Candidate) × (get_elem? cs g.index ≡ some k) × (g.bytes ≡ k.bytes)

  -- No grant is empty, and a tensor is granted in part only when the budget is spent by it.
  pub IsGreedy : List Candidate → Admit.Filling W → Type 0
  IsGreedy cs s = All (λ g. 0 < g.bytes) s.grants × ((s.remaining ≡ 0) ⊎ All (Whole cs) s.grants)

  pub AllWhole : List Candidate → Admit.Filling W → Type 0
  AllWhole cs s = All (Whole cs) s.grants

  -- What a loop over the candidates keeps: the budget is split into grants and remainder.
  pub Splits : List Candidate → ℕ → Admit.Filling W → Type 0
  Splits cs budget s = (granted_bytes s.grants + s.remaining ≡ budget) × All (Fits cs) s.grants

  -- Every offer keeps a property, so the loop does.
  pub through-keeps {ℓ} :
      {P : Admit.Filling W → Type ℓ} (offer : ℕ → Candidate → Admit.Filling W → Admit.Filling W)
      (cs : List Candidate)
      → ((i : ℕ) (k : Candidate) (s : Admit.Filling W)
          → get_elem? cs i ≡ some k
          → P s
          → P (offer i k s))
      → (order : List ℕ) (s : Admit.Filling W) → P s
      → P (Admit.through offer cs order s)
  through-keeps offer cs keep [] s p = p
  through-keeps {P = P} offer cs keep (i ∷ order) s p = elim (Option-cases (get_elem? cs i)) [
    | inl e ↦ rw e (through-keeps {P = P} offer cs keep order s p)
    | inr (k, e) ↦ rw e (through-keeps {P = P} offer cs keep order (offer i k s) (keep i k s e p))
  ]

  grant_one-Splits :
      (cs : List Candidate) (budget i granted : ℕ) (hit : W) (k : Candidate) (s : Admit.Filling W)
      → get_elem? cs i ≡ some k
      → granted ≤ k.bytes
      → granted ≤ s.remaining
      → Splits cs budget s
      → Splits cs budget (Admit.grant_one i granted hit s)
  unfolding Splits Fits
  grant_one-Splits cs budget i granted hit k s e fits left (sum, all) =
      let new : Admit.Grant W = record { index = i; bytes = granted; hit_ratio = hit } in
      (
        omega (arith, granted_bytes-append s.grants (new ∷ [])),
        All-append (Fits cs) s.grants (new ∷ []) all ((k, e, fits), tt),
      )

  grant_one-IsGreedy :
      (cs : List Candidate) (i : ℕ) (hit : W) (k : Candidate) (s : Admit.Filling W)
      → get_elem? cs i ≡ some k
      → 0 < min s.remaining k.bytes
      → IsGreedy cs s
      → IsGreedy cs (Admit.grant_one i (min s.remaining k.bytes) hit s)
  unfolding IsGreedy Whole
  grant_one-IsGreedy cs i hit k s e pos (some_bytes, spent) =
      let new : Admit.Grant W = record {
        index = i;
        bytes = min s.remaining k.bytes;
        hit_ratio = hit;
      } in
      (
        All-append (λ g. 0 < g.bytes) s.grants (new ∷ []) some_bytes (pos, tt),
        elim (le_total s.remaining k.bytes) [
          | inl short ↦ inl (omega arith)
          | inr enough ↦ elim spent [
            | inl z ↦ inl (omega arith)
            | inr all ↦
                inr (All-append (Whole cs) s.grants (new ∷ []) all ((k, e, omega arith), tt))
          ]
        ],
      )

module _ {W : Type 0} ⦃d : Double W⦄ (c : TransitPlannerConfig W) (cs : List Candidate) where
  offer_ordered-Splits :
      (budget i : ℕ) (k : Candidate) (s : Admit.Filling W)
      → get_elem? cs i ≡ some k
      → Splits cs budget s
      → Splits cs budget (Admit.offer_ordered c i k s)
  unfolding Admit.offer_ordered Splits
  offer_ordered-Splits budget i k s e h =
      let granted = min s.remaining k.bytes in
      elim (Bool-cases (granted == 0)) [
        | inl z ↦ rw z h
        | inr z ↦
            elim (Bool-cases (d.lt (d.mul c.hit_ratio (ratio granted k.bytes)) c.min_hit_ratio)) [
              | inl low ↦ rw (z, low) h
              | inr fine ↦
                  rw (z, fine)
                    (grant_one-Splits cs budget i granted c.hit_ratio k s e (omega arith)
                      (omega arith) h)
            ]
      ]

  offer_quota-Splits :
      (budget i : ℕ) (k : Candidate) (s : Admit.Filling W)
      → get_elem? cs i ≡ some k
      → Splits cs budget s
      → Splits cs budget (Admit.offer_quota c i k s)
  unfolding Admit.offer_quota Splits
  offer_quota-Splits budget i k s e h = elim (Bool-cases (ltb s.remaining k.bytes)) [
    | inl z ↦ rw z h
    | inr z ↦
        rw z (grant_one-Splits cs budget i k.bytes c.hit_ratio k s e (omega arith) (ground arith) h)
  ]

  offer_ordered-IsGreedy :
      (i : ℕ) (k : Candidate) (s : Admit.Filling W)
      → get_elem? cs i ≡ some k
      → IsGreedy cs s
      → IsGreedy cs (Admit.offer_ordered c i k s)
  unfolding Admit.offer_ordered IsGreedy Whole
  offer_ordered-IsGreedy i k s e h =
      let granted = min s.remaining k.bytes in
      elim (Bool-cases (granted == 0)) [
        | inl z ↦ rw z h
        | inr z ↦
            elim (Bool-cases (d.lt (d.mul c.hit_ratio (ratio granted k.bytes)) c.min_hit_ratio)) [
              | inl low ↦ rw (z, low) h
              | inr fine ↦ rw (z, fine) (grant_one-IsGreedy cs i c.hit_ratio k s e (ground arith) h)
            ]
      ]

  offer_quota-AllWhole :
      (i : ℕ) (k : Candidate) (s : Admit.Filling W)
      → get_elem? cs i ≡ some k
      → AllWhole cs s
      → AllWhole cs (Admit.offer_quota c i k s)
  unfolding Admit.offer_quota AllWhole Whole
  offer_quota-AllWhole i k s e h = elim (Bool-cases (ltb s.remaining k.bytes)) [
    | inl z ↦ rw z h
    | inr z ↦ rw z (All-append (Whole cs) s.grants (_ ∷ []) h ((k, e, refl), tt))
  ]

indices_from-bound : (i n m : ℕ) → i + n ≤ m → All (λ j. j < m) (Admit.indices_from i n)
indices_from-bound i zero m h = tt
indices_from-bound i (suc n) m h = (omega arith, indices_from-bound (suc i) n m (omega arith))

module _ (less : Candidate → Candidate → Bool) (cs : List Candidate) where
  pub order_by-bound : All (λ j. j < length cs) (Admit.order_by less cs)
  order_by-bound =
      All-sort (λ j. j < length cs) (Admit.less_at less cs) (Admit.indices_from 0 (length cs))
        (indices_from-bound 0 (length cs) (length cs) (omega arith))

module _ {W : Type 0} ⦃d : Double W⦄ where
  -- `admit_ordered`, whatever the order and whatever the `double` arithmetic: the bytes granted and
  -- the bytes left are the budget; each grant is for a candidate, is not empty and is no more than
  -- it; a candidate is granted in part only if the whole budget is spent; and each candidate is
  -- granted once, or declined once for the budget or for its hit ratio, and not both.
  pub admit_ordered-budget :
      (c : TransitPlannerConfig W) (less : Candidate → Candidate → Bool) (cs : List Candidate)
      (budget : ℕ) (declined : List TransitDecline)
      → let s = Admit.admit_ordered c less cs budget declined in
        Splits cs budget s × IsGreedy cs s × DecidesEach ForBudgetOrHits cs declined s
  unfolding Admit.admit_ordered Splits IsGreedy
  admit_ordered-budget c less cs budget declined =
      let offer = Admit.offer_ordered c in
      let order = Admit.order_by less cs in
      let s : Admit.Filling W = Admit.begin budget declined in
      (
        through-keeps {P = Splits cs budget} offer cs (offer_ordered-Splits c cs budget) order s
            (omega arith, tt),
        through-keeps {P = IsGreedy cs} offer cs (offer_ordered-IsGreedy c cs) order s (tt, inr tt),
        through-DecidesEach ForBudgetOrHits cs declined offer (offer_ordered-Decides c cs declined)
            less budget (order_by-bound less cs),
      )

  -- `admit_quota`: the bytes granted and the bytes left are the budget; each grant is for a candidate,
  -- and is the whole of it; and each candidate is granted once, or declined once for the budget, and
  -- not both.
  pub admit_quota-budget :
      (c : TransitPlannerConfig W) (cs : List Candidate) (budget : ℕ)
      (declined : List TransitDecline)
      → let s = Admit.admit_quota c cs budget declined in
        Splits cs budget s × AllWhole cs s × DecidesEach ForBudget cs declined s
  unfolding Admit.admit_quota Splits AllWhole
  admit_quota-budget c cs budget declined =
      let offer = Admit.offer_quota c in
      let less = Admit.by_density W in
      let order = Admit.order_by less cs in
      let s : Admit.Filling W = Admit.begin budget declined in
      (
        through-keeps {P = Splits cs budget} offer cs (offer_quota-Splits c cs budget) order s
            (omega arith, tt),
        through-keeps {P = AllWhole cs} offer cs (offer_quota-AllWhole c cs) order s tt,
        through-DecidesEach ForBudget cs declined offer (offer_quota-Decides c cs declined) less
            budget (order_by-bound less cs),
      )
