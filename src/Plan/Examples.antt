-- ===== src/Plan/Examples.antt =====
-- Plans in fixed point, and the theorems on `validate` and the index at them.
use recurlocal.Registry.{Registry, empty, run, registers}
use recurlocal.Tensor.Examples.{weight, state}
use recurlocal.Plan.Rebind.{rebind, rebind_iff, IsKnown, IsBound}
use recurlocal.Base.{
  All, true, false, ◌⊎◌, ◌≡◌, refl, ◌↔◌, List, [], ◌∷◌, none, some, not, if◌then◌else◌, ◌==◌, ◌&&◌,
}
use recurlocal.Double.{Fixed, fixed_double}
use recurlocal.Tensor.{recurrent_state}
use recurlocal.Plan.{TransitPlan, TransitAction, no_plan, persist, clear_policy}
use recurlocal.Plan.Validate.{
  validate, first_problem, check_action, check_region, check_cleared, check_installed, check_joined,
}
use recurlocal.Plan.Validate.Sound.{IsWellFormed, validate_iff}
use recurlocal.Plan.Index.{before, finalize, positions}
use recurlocal.Plan.Index.Lookup.{before-finalize, is_named}

-- A window of 100 bytes before kernel 2, and its clear after kernel 3.
abbrev pub window : TransitAction Fixed
window = record {
  kind = persist;
  tensor = 2;
  before_kernel = 2;
  after_kernel = 0;
  ptr = 8192;
  bytes = 100;
  hit_ratio = 10_000;
  stream_id = 0;
  event_id = 0;
  expected_saved_bytes = 100;
  role = recurrent_state;
}

abbrev pub clear_window : TransitAction Fixed
clear_window = record window {
  kind = clear_policy;
  before_kernel = 0;
  after_kernel = 3;
  ptr = 0;
  bytes = 0;
  hit_ratio = 0;
  expected_saved_bytes = 0;
}

abbrev pub actions : List (TransitAction Fixed)
actions = window ∷ clear_window ∷ []

abbrev plan : TransitPlan Fixed
plan = record no_plan { actions = actions }

accepted : validate ⦃d = fixed_double⦄ actions ≡ none
unfolding validate first_problem check_action check_region check_cleared check_installed
    check_joined
accepted = refl

-- Without its clear the window is refused.
refused :
    validate ⦃d = fixed_double⦄ (window ∷ [])
    ≡ some "a persist action is never cleared (see spec section 32)"
unfolding validate first_problem check_action check_region check_cleared check_installed
    check_joined
refused = refl

validate_iff_example :
    (validate ⦃d = fixed_double⦄ actions ≡ none) ↔ IsWellFormed ⦃d = fixed_double⦄ actions
validate_iff_example = validate_iff ⦃d = fixed_double⦄ actions

before-finalize_example : before (finalize plan) 2 ≡ (
    if not (2 == 0) && is_named (λ a. a.before_kernel) 2 actions
    then some (positions (λ a. a.before_kernel) 2 0 actions)
    else none)
before-finalize_example = before-finalize plan 2

-- The registry knows the window's tensor as tensor 2, which has 100 bytes.
abbrev known : Registry
known = run empty (registers weight ∷ registers state ∷ [])

rebind_iff_example :
    (((rebind known plan).1 ≡ true) ↔ All (IsKnown known) actions)
    × (((rebind known plan).1 ≡ false)
        ⊎ (((rebind known plan).0.finalized ≡ true)
            × All (IsBound known) (rebind known plan).0.actions))
rebind_iff_example = rebind_iff known plan
