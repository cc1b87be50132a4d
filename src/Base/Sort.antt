-- ===== src/Base/Sort.antt =====
-- `std::sort` and `std::stable_sort` by a test, as insertion; `std::find` and `std::lower_bound` on
-- numbers.
use Prim.Native.Nat.{ℕ, suc, ◌<◌}
use mathlib.Core.Path.{◌≡◌, refl}
use mathlib.Core.Logic.{inl, inr}
use mathlib.Core.Bool.{Bool, false, ◌||◌}
use mathlib.Core.List.{List, [], ◌∷◌}
use native.Mathlib.Omega.{arith}
use recurlocal.Base.Tests.{leb, if◌then◌else◌, ◌==◌, ltb, Bool-cases}
use recurlocal.Base.Lists.{All, length}

module _ {ℓ} {A : Type ℓ} where
  -- Before the first element that is not less: equal elements keep their order.
  unfoldable pub insert : (A → A → Bool) → A → List A → List A
  insert less x [] = x ∷ []
  insert less x (y ∷ ys) = if less y x then y ∷ insert less x ys else x ∷ y ∷ ys

  unfoldable pub sort : (A → A → Bool) → List A → List A
  unfolding insert
  sort less [] = []
  sort less (x ∷ xs) = insert less x (sort less xs)

  pub length-insert :
      (less : A → A → Bool) (x : A) (ys : List A) → length (insert less x ys) ≡ suc (length ys)
  unfolding insert
  length-insert less x [] = refl
  length-insert less x (y ∷ ys) = ground (arith, length-insert less x ys)

  pub length-sort : (less : A → A → Bool) (xs : List A) → length (sort less xs) ≡ length xs
  unfolding sort
  length-sort less [] = refl
  length-sort less (x ∷ xs) =
      omega (arith, length-insert less x (sort less xs), length-sort less xs)

module _ {ℓ κ} {A : Type ℓ} (P : A → Type κ) (less : A → A → Bool) where
  All-insert : (x : A) (ys : List A) → P x → All P ys → All P (insert less x ys)
  unfolding insert
  All-insert x [] p ps = (p, tt)
  All-insert x (y ∷ ys) p (q, qs) = elim (Bool-cases (less y x)) [
    | inl e ↦ ground (arith, e, All-insert x ys p qs)
    | inr e ↦ ground (arith, e)
  ]

  pub All-sort : (xs : List A) → All P xs → All P (sort less xs)
  unfolding sort
  All-sort [] ps = tt
  All-sort (x ∷ xs) (p, ps) = All-insert x (sort less xs) p (All-sort xs ps)

abbrev pub contains : ℕ → List ℕ → Bool
contains k [] = false
contains k (x ∷ xs) = x == k || contains k xs

-- The first position whose number is not below `k`.
unfoldable pub lower_bound : List ℕ → ℕ → ℕ
lower_bound [] k = 0
lower_bound (x ∷ xs) k = if ltb x k then suc (lower_bound xs k) else 0

-- The first position whose number is above `k`.
unfoldable pub upper_bound : List ℕ → ℕ → ℕ
upper_bound [] k = 0
upper_bound (x ∷ xs) k = if leb x k then suc (upper_bound xs k) else 0

-- `std::unique` with the erase that follows it: of equal neighbours one is kept.
unfoldable pub unique : List ℕ → List ℕ
unique [] = []
unique (x ∷ []) = x ∷ []
unique (x ∷ y ∷ ys) = let rest = unique (y ∷ ys) in if x == y then rest else x ∷ rest

-- Strictly rising from `lo` on.
abbrev pub Rising : ℕ → List ℕ → Type 0
Rising lo [] = Unit {0}
Rising lo (x ∷ xs) = (lo < x) × Rising x xs
