-- ===== src/Base/Names.antt =====
-- Tables of names, and parsers that look a name up. A chain of `if (s == "...") return ...` is a
-- table in its order.
use Prim.Native.String.{String}
use mathlib.Core.Path.{subst, ◌≡◌}
use mathlib.Core.Logic.{◌↔◌, inl, inr}
use mathlib.Core.Option.{Option, none, some}
use mathlib.Core.List.{List, [], ◌∷◌}
use native.Mathlib.Omega.{arith}
use text.Mathlib.Text.{◌==◌}
use text.Mathlib.TextEquality.{eq_iff}
use recurlocal.Base.Tests.{if◌then◌else◌, Bool-cases}
use recurlocal.Base.Lists.{All}

-- A value, or the exception `std::invalid_argument` with the parts of its text.
pub data Parsed {ℓ} (A : Type ℓ) : Type ℓ where
  value : A → Parsed A
  invalid_argument : List String → Parsed A

module _ {ℓ} {A : Type ℓ} where
  unfoldable pub find_value : List (String × A) → String → Option A
  find_value [] s = none
  find_value ((n, v) ∷ es) s = if s == n then some v else find_value es s

  -- The parsers' frame: a null text and an unknown one are refused, each with its message.
  unfoldable pub parse_named : List (String × A) → String → String → Option String → Parsed A
  parse_named table null_message unknown none = invalid_argument (null_message ∷ [])
  parse_named table null_message unknown (some s) = elim (find_value table s) [
    | some v ↦ value v
    | none ↦ invalid_argument (unknown ∷ s ∷ [])
  ]

  -- Every entry of the table carries the name that the printer gives.
  unfoldable pub IsNamedBy : (A → String) → List (String × A) → Type 0
  IsNamedBy name table = All (λ e. name e.1 ≡ e.0) table

  find_value_sound :
      (name : A → String) (table : List (String × A)) (s : String) (v : A)
      → IsNamedBy name table
      → find_value table s ≡ some v
      → name v ≡ s
  unfolding find_value IsNamedBy
  find_value_sound name [] s v h e = cc
  find_value_sound name ((n, w) ∷ es) s v h e = elim (Bool-cases (s == n)) [
    | inl hit ↦ ground (arith, eq_iff s n, h.0, hit, e)
    | inr miss ↦ find_value_sound name es s v h.1 (ground (arith, miss, e))
  ]

  parse_named_sound :
      (table : List (String × A)) (u w s : String) (v : A)
      → parse_named table u w (some s) ≡ value v
      → find_value table s ≡ some v
  unfolding parse_named
  parse_named_sound table u w s v e = ground arith

  pub parse_named_iff :
      (name : A → String) (table : List (String × A)) (u w s : String) (v : A)
      → IsNamedBy name table
      → find_value table (name v) ≡ some v
      → (parse_named table u w (some s) ≡ value v) ↔ (name v ≡ s)
  unfolding parse_named
  parse_named_iff name table u w s v h h' = (
    λ e. find_value_sound name table s v h (parse_named_sound table u w s v e),
    λ q. subst (λ t. parse_named table u w (some t) ≡ value v) q (rw (h', parse_named)),
  )
