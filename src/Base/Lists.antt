-- ===== src/Base/Lists.antt =====
-- Lists measured and indexed by native numbers, and predicates over lists by recursion.
use Prim.Native.Nat.{◌<◌, ℕ, zero, suc, ◌+◌}
use mathlib.Core.Path.{◌≡◌, refl, ap, subst}
use mathlib.Core.Logic.{◌⊎◌, inl, inr}
use mathlib.Core.Bool.{Bool, true, false, ◌||◌}
use mathlib.Core.List.{List, [], ◌∷◌, ◌++◌}
use mathlib.Core.Option.{Option, none, some, some-injective}
use native.Mathlib.Omega.{arith}
use recurlocal.Base.Tests.{if◌then◌else◌, Bool-cases}

abbrev pub shifted : Option ℕ → Option ℕ
shifted none = none
shifted (some i) = some (suc i)

module _ {ℓ} {A : Type ℓ} where
  abbrev pub length : List A → ℕ
  length [] = 0
  length (x ∷ xs) = suc (length xs)

  abbrev pub get_elem? : List A → ℕ → Option A
  get_elem? [] i = none
  get_elem? (x ∷ xs) zero = some x
  get_elem? (x ∷ xs) (suc i) = get_elem? xs i

  -- A write out of bounds changes nothing.
  abbrev pub set : List A → ℕ → A → List A
  set [] i v = []
  set (x ∷ xs) zero v = v ∷ xs
  set (x ∷ xs) (suc i) v = x ∷ set xs i v

  -- `std::find_if`, `none` for the end.
  unfoldable pub find_index : (A → Bool) → List A → Option ℕ
  find_index p [] = none
  find_index p (x ∷ xs) = if p x then some 0 else shifted (find_index p xs)

  abbrev pub filterb : (A → Bool) → List A → List A
  filterb p [] = []
  filterb p (x ∷ xs) = if p x then x ∷ filterb p xs else filterb p xs

  abbrev pub any : (A → Bool) → List A → Bool
  any p [] = false
  any p (x ∷ xs) = p x || any p xs

  abbrev pub All {κ} : (A → Type κ) → List A → Type κ
  All P [] = Unit
  All P (x ∷ xs) = P x × All P xs

  -- Every earlier element stands in the relation to every later one.
  abbrev pub Pairs {κ} : (A → A → Type κ) → List A → Type κ
  Pairs R [] = Unit
  Pairs R (x ∷ xs) = All (R x) xs × Pairs R xs

module _ {ℓ} {A : Type ℓ} where
  pub length-append : (xs ys : List A) → length (xs ++ ys) ≡ length xs + length ys
  length-append [] ys = omega arith
  length-append (x ∷ xs) ys = omega (arith, length-append xs ys)

  pub length-set : (xs : List A) (i : ℕ) (v : A) → length (set xs i v) ≡ length xs
  length-set [] i v = refl
  length-set (x ∷ xs) zero v = refl
  length-set (x ∷ xs) (suc i) v = ap suc (length-set xs i v)

  pub find_index-some :
      (p : A → Bool) (xs : List A) (i : ℕ)
      → find_index p xs ≡ some i
      → (a : A) × (get_elem? xs i ≡ some a) × (p a ≡ true)
  unfolding find_index
  find_index-some p [] i e = cc
  find_index-some p (x ∷ xs) zero e = (x, refl, ground arith)
  find_index-some p (x ∷ xs) (suc i) e = find_index-some p xs i (ground arith)

  pub find_index-none :
      (p : A → Bool) (xs : List A) → find_index p xs ≡ none → All (λ a. p a ≡ false) xs
  unfolding find_index
  find_index-none p [] e = tt
  find_index-none p (x ∷ xs) e = ground (arith, find_index-none p xs)

  -- The first hit is at an index whose element is known to be found.
  pub find_index_hit :
      (p : A → Bool) (xs : List A) (i : ℕ) (a : A)
      → get_elem? xs i ≡ some a
      → p a ≡ true
      → (j : ℕ) × (find_index p xs ≡ some j)
  unfolding find_index
  find_index_hit p [] i a e h = cc
  find_index_hit p (x ∷ xs) zero a e h = (0, ground arith)
  find_index_hit p (x ∷ xs) (suc i) a e h =
      let (j, found) = find_index_hit p xs i a e h in
      elim (Bool-cases (p x)) [ inl hit ↦ (0, rw hit) | inr miss ↦ (suc j, rw (miss, found)) ]

module _ {ℓ κ} {A : Type ℓ} (P : A → Type κ) where
  pub All-get_elem? : (xs : List A) (i : ℕ) (a : A) → All P xs → get_elem? xs i ≡ some a → P a
  All-get_elem? [] i a h e = cc
  All-get_elem? (x ∷ xs) zero a h e = subst P (some-injective _ _ e) h.0
  All-get_elem? (x ∷ xs) (suc i) a h e = All-get_elem? xs i a h.1 e

  pub All-set : (xs : List A) (i : ℕ) (v : A) → All P xs → P v → All P (set xs i v)
  All-set [] i v h p = tt
  All-set (x ∷ xs) zero v h p = (p, h.1)
  All-set (x ∷ xs) (suc i) v h p = (h.0, All-set xs i v h.1 p)

  pub All-append : (xs ys : List A) → All P xs → All P ys → All P (xs ++ ys)
  All-append [] ys h k = k
  All-append (x ∷ xs) ys h k = (h.0, All-append xs ys h.1 k)

  pub All_of_forall : (xs : List A) → ((a : A) → P a) → All P xs
  All_of_forall [] f = tt
  All_of_forall (x ∷ xs) f = (f x, All_of_forall xs f)

  pub All-mono {μ} : {Q : A → Type μ} (xs : List A) → All P xs → ((a : A) → P a → Q a) → All Q xs
  All-mono [] h f = tt
  All-mono (x ∷ xs) h f = (f x h.0, All-mono xs h.1 f)

module _ {ℓ κ} {A : Type ℓ} (R : A → A → Type κ) where
  -- A new element that stands in the relation to all keeps it, wherever it is put.
  pub Pairs-set :
      (xs : List A) (i : ℕ) (v : A)
      → ((a b : A) → R a b → R b a)
      → Pairs R xs
      → All (R v) xs
      → Pairs R (set xs i v)
  Pairs-set [] i v s p h = tt
  Pairs-set (x ∷ xs) zero v s p h = (h.1, p.1)
  Pairs-set (x ∷ xs) (suc i) v s p h =
      (All-set (R x) xs i v p.0 (s v x h.0), Pairs-set xs i v s p.1 h.1)

  pub Pairs-append_one :
      (xs : List A) (v : A)
      → ((a b : A) → R a b → R b a)
      → Pairs R xs
      → All (R v) xs
      → Pairs R (xs ++ (v ∷ []))
  Pairs-append_one [] v s p h = (tt, tt)
  Pairs-append_one (x ∷ xs) v s p h =
      (All-append (R x) xs (v ∷ []) p.0 (s v x h.0, tt), Pairs-append_one xs v s p.1 h.1)

  -- An element may be replaced by one that every other one relates to as to the old one.
  pub Pairs-set_like :
      (xs : List A) (i : ℕ) (old v : A)
      → get_elem? xs i ≡ some old
      → ((a : A) → R a old → R a v)
      → ((a : A) → R old a → R v a)
      → Pairs R xs
      → Pairs R (set xs i v)
  Pairs-set_like [] i old v e f g p = tt
  Pairs-set_like (x ∷ xs) zero old v e f g p =
      (All-mono (R old) xs (subst (λ y. All (R y) xs) (some-injective _ _ e) p.0) g, p.1)
  Pairs-set_like (x ∷ xs) (suc i) old v e f g p = (
    All-set (R x) xs i v p.0 (f x (All-get_elem? (R x) xs i old p.0 e)),
    Pairs-set_like xs i old v e f g p.1,
  )

  pub All-Pairs-get_elem? :
      (xs : List A) (i j : ℕ) (a b : A)
      → ((a b : A) → R a b → R b a)
      → Pairs R xs
      → get_elem? xs i ≡ some a
      → get_elem? xs j ≡ some b
      → (i ≡ j) ⊎ R a b
  All-Pairs-get_elem? [] i j a b s p e f = cc
  All-Pairs-get_elem? (x ∷ xs) zero zero a b s p e f = inl refl
  All-Pairs-get_elem? (x ∷ xs) zero (suc j) a b s p e f =
      inr (subst (λ y. R y b) (some-injective _ _ e) (All-get_elem? (R x) xs j b p.0 f))
  All-Pairs-get_elem? (x ∷ xs) (suc i) zero a b s p e f =
      inr (s _ _ (subst (λ y. R y a) (some-injective _ _ f) (All-get_elem? (R x) xs i a p.0 e)))
  All-Pairs-get_elem? (x ∷ xs) (suc i) (suc j) a b s p e f =
      elim (All-Pairs-get_elem? xs i j a b s p.1 e f) [ inl q ↦ inl (ap suc q) | inr r ↦ inr r ]

module _ {ℓ κ} {A : Type ℓ} (P : A → Type κ) where
  pub All_of_get_elem? :
      (xs : List A) → ((i : ℕ) (a : A) → get_elem? xs i ≡ some a → P a) → All P xs
  All_of_get_elem? [] f = tt
  All_of_get_elem? (x ∷ xs) f = (f 0 x refl, All_of_get_elem? xs (λ i a e. f (suc i) a e))

module _ {ℓ} {A : Type ℓ} where
  pub get_elem?-set_self :
      (xs : List A) (i : ℕ) (a v : A) → get_elem? xs i ≡ some a → get_elem? (set xs i v) i ≡ some v
  get_elem?-set_self [] i a v e = cc
  get_elem?-set_self (x ∷ xs) zero a v e = refl
  get_elem?-set_self (x ∷ xs) (suc i) a v e = get_elem?-set_self xs i a v e

  pub get_elem?-append_one : (xs : List A) (v : A) → get_elem? (xs ++ (v ∷ [])) (length xs) ≡ some v
  get_elem?-append_one [] v = refl
  get_elem?-append_one (x ∷ xs) v = get_elem?-append_one xs v

module _ {ℓ} {A : Type ℓ} where
  abbrev pub get_or : List A → ℕ → A → A
  get_or [] i d = d
  get_or (x ∷ xs) zero d = x
  get_or (x ∷ xs) (suc i) d = get_or xs i d

  abbrev pub take : ℕ → List A → List A
  take zero xs = []
  take (suc n) [] = []
  take (suc n) (x ∷ xs) = x ∷ take n xs

  abbrev pub drop : ℕ → List A → List A
  drop zero xs = xs
  drop (suc n) [] = []
  drop (suc n) (x ∷ xs) = drop n xs

  pub take-append : (xs ys : List A) → take (length xs) (xs ++ ys) ≡ xs
  take-append [] ys = refl
  take-append (x ∷ xs) ys = rw (take-append xs ys)

  pub drop-append : (xs ys : List A) → drop (length xs) (xs ++ ys) ≡ ys
  drop-append [] ys = refl
  drop-append (x ∷ xs) ys = drop-append xs ys

  pub get_elem?-some : (xs : List A) (i : ℕ) → i < length xs → (a : A) × (get_elem? xs i ≡ some a)
  get_elem?-some [] i h = grind arith
  get_elem?-some (x ∷ xs) zero h = (x, refl)
  get_elem?-some (x ∷ xs) (suc i) h = get_elem?-some xs i (omega arith)

module _ {ℓ κ μ} {A : Type ℓ} (P : A → Type κ) (Q : A → Type μ) where
  pub All-both : (xs : List A) → All P xs → All Q xs → All (λ a. P a × Q a) xs
  All-both [] h k = tt
  All-both (x ∷ xs) (p, h) (q, k) = ((p, q), All-both xs h k)
