-- ===== src/Plan/Validate.antt =====
-- `TransitPlan::validate`: the first thing that is wrong with a plan, or `none`.
pub mod Sound
use recurlocal.Base.{
  ℕ, Bool, true, false, not, ◌&&◌, ◌||◌, ◌==◌, List, [], ◌∷◌, Option, none, some, if◌then◌else◌,
  any,
}
use Prim.Native.String.{String}
use recurlocal.Double.{Double, nought, unit}
use recurlocal.Plan.{
  TransitActionKind, persist, stream, prefetch, rotate_window, clear_policy, record_event,
  wait_event, is_kind, TransitAction,
}

-- What a loop with an early return finds first.
unfoldable pub first_problem {ℓ} : {A : Type ℓ} → (A → Option String) → List A → Option String
first_problem check [] = none
first_problem check (x ∷ xs) = elim (check x) [ none ↦ first_problem check xs | some e ↦ some e ]

abbrev pub or_else : Option String → Option String → Option String
or_else none rest = rest
or_else (some e) rest = some e

abbrev pub problem_if : Bool → String → Option String
problem_if b text = if b then some text else none

-- The kinds that mark a region of memory.
abbrev pub is_region : TransitActionKind → Bool
is_region persist = true
is_region stream = true
is_region prefetch = true
is_region rotate_window = true
is_region _ = false

-- The kinds that install a policy.
abbrev pub installs : TransitActionKind → Bool
installs k = is_kind k persist || is_kind k stream || is_kind k rotate_window

module _ {W : Type 0} ⦃d : Double W⦄ where
  unfoldable pub check_region : TransitAction W → Option String
  check_region a =
      if is_region a.kind
      then or_else (problem_if (a.bytes == 0) "a region action covers zero bytes")
          (problem_if (a.tensor == 0) "a region action names no tensor")
      else none

  unfoldable pub check_action : TransitAction W → Option String
  check_action a =
      or_else
        (problem_if (a.before_kernel == 0 && a.after_kernel == 0)
          "an action is placed on no kernel and can never fire")
        (or_else (check_region a) (
          problem_if
            (is_kind a.kind persist && not (d.lt nought a.hit_ratio && d.le a.hit_ratio unit))
            "a persist action has a hit ratio outside (0,1]"))

module _ {W : Type 0} where
  abbrev pub clears : ℕ → TransitAction W → Bool
  clears tensor o = is_kind o.kind clear_policy && o.tensor == tensor

  abbrev pub installs_for : ℕ → TransitAction W → Bool
  installs_for tensor o = o.tensor == tensor && installs o.kind

  abbrev pub joins : ℕ → TransitAction W → Bool
  joins event o = is_kind o.kind wait_event && o.event_id == event

  unfoldable pub check_cleared : List (TransitAction W) → TransitAction W → Option String
  check_cleared actions a =
      problem_if (is_kind a.kind persist && not (any (clears a.tensor) actions))
        "a persist action is never cleared (see spec section 32)"

  unfoldable pub check_installed : List (TransitAction W) → TransitAction W → Option String
  check_installed actions a =
      problem_if (is_kind a.kind clear_policy && not (any (installs_for a.tensor) actions))
        "a clear_policy action drops a policy nothing installed"

  unfoldable pub check_joined : List (TransitAction W) → TransitAction W → Option String
  check_joined actions a =
      problem_if (is_kind a.kind record_event && not (any (joins a.event_id) actions))
        "a record_event has no matching wait_event: a fork is never joined"

-- `validate`, on the plan's actions.
unfoldable pub validate : {W : Type 0} ⦃d : Double W⦄ → List (TransitAction W) → Option String
validate actions = or_else (first_problem check_action actions) (
    or_else (first_problem (check_cleared actions) actions) (
      or_else (first_problem (check_installed actions) actions)
        (first_problem (check_joined actions) actions)))
