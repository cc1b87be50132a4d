-- ===== src/Base/Filter.antt =====
-- What `filterb`, `take`, `drop` and `sort` do to lengths and to members.
use Prim.Native.Nat.{ℕ, zero, suc, ◌+◌, ◌≤◌}
use mathlib.Core.Path.{◌≡◌, refl}
use mathlib.Core.Logic.{inl, inr}
use mathlib.Core.Bool.{Bool, true, false}
use mathlib.Core.List.{List, [], ◌∷◌}
use native.Mathlib.Omega.{arith}
use recurlocal.Base.Tests.{Bool-cases}
use recurlocal.Base.Lists.{length, filterb, All, drop}
use recurlocal.Base.Sort.{insert, sort}

module _ {ℓ} {A : Type ℓ} (p : A → Bool) where
  pub length-filterb : (xs : List A) → length (filterb p xs) ≤ length xs
  length-filterb [] = omega arith
  length-filterb (x ∷ xs) = ground (arith, length-filterb xs)

  length-filterb-insert :
      (less : A → A → Bool) (x : A) (xs : List A)
      → length (filterb p (insert less x xs)) ≡ length (filterb p (x ∷ xs))
  unfolding insert
  length-filterb-insert less x [] = refl
  length-filterb-insert less x (y ∷ ys) = ground (arith, length-filterb-insert less x ys)

  pub length-filterb-sort :
      (less : A → A → Bool) (xs : List A)
      → length (filterb p (sort less xs)) ≡ length (filterb p xs)
  unfolding sort
  length-filterb-sort less [] = refl
  length-filterb-sort less (x ∷ xs) =
      ground (arith, length-filterb-insert less x (sort less xs), length-filterb-sort less xs)

  -- At most `n` of the first `n`, and those of the rest.
  pub length-filterb-drop :
      (n : ℕ) (xs : List A) → length (filterb p xs) ≤ n + length (filterb p (drop n xs))
  length-filterb-drop zero xs = omega arith
  length-filterb-drop (suc n) [] = omega arith
  length-filterb-drop (suc n) (x ∷ xs) = ground (arith, length-filterb-drop n xs)

  pub length-filterb_none : (xs : List A) → All (λ x. p x ≡ false) xs → length (filterb p xs) ≡ 0
  length-filterb_none [] h = refl
  length-filterb_none (x ∷ xs) (e, h) = rw e (length-filterb_none xs h)

  pub length-filterb-filterb :
      (q : A → Bool) (xs : List A)
      → length (filterb p (filterb q xs)) ≡ length (filterb q (filterb p xs))
  length-filterb-filterb q [] = refl
  length-filterb-filterb q (x ∷ xs) = ground (arith, length-filterb-filterb q xs)

  pub All-filterb : (xs : List A) → All (λ x. p x ≡ true) (filterb p xs)
  All-filterb [] = tt
  All-filterb (x ∷ xs) = elim (Bool-cases (p x)) [
    | inl e ↦ rw e (e, All-filterb xs)
    | inr e ↦ rw e (All-filterb xs)
  ]

module _ {ℓ κ} {A : Type ℓ} (P : A → Type κ) where
  pub All-drop : (n : ℕ) (xs : List A) → All P xs → All P (drop n xs)
  All-drop zero xs h = h
  All-drop (suc n) [] h = tt
  All-drop (suc n) (x ∷ xs) (e, h) = All-drop n xs h
