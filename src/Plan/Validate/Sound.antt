-- ===== src/Plan/Validate/Sound.antt =====
-- `validate` against what a well-formed plan is.
use recurlocal.Base.{
  ◌&&◌, not, ==_iff, ap, ◌∙◌, sym, ℕ, ◌≡◌, ◌≢◌, refl, ◌↔◌, ◌⊎◌, Bool, true, false, ◌==◌, List, [],
  ◌∷◌, Option, none, All, any, arith, if◌then◌else◌,
}
use mathlib.Core.Bool.{false≢true}
use Prim.Native.String.{String}
use recurlocal.Double.{Double, nought, unit}
use recurlocal.Plan.{
  kind_value, TransitActionKind, normal, persist, stream, prefetch, rotate_window, clear_policy,
  record_event, wait_event, is_kind, TransitAction,
}
use recurlocal.Plan.Validate.{
  first_problem, or_else, problem_if, is_region, check_region, check_action, clears, installs_for,
  joins, check_cleared, check_installed, check_joined, validate,
}

-- Some element of the list has the property.
abbrev pub Any {ℓ} : {A : Type ℓ} → (A → Type 0) → List A → Type 0
Any P [] = ⊥
Any P (x ∷ xs) = P x ⊎ Any P xs

kind_of_value : ℕ → TransitActionKind
kind_of_value n =
    if n == 0
    then normal
    else if n == 1
    then persist
    else if n == 2
    then stream
    else if n == 3
    then prefetch
    else if n == 4
    then rotate_window
    else if n == 5
    then clear_policy
    else if n == 6
    then record_event
    else wait_event

kind_of_value-kind_value : (k : TransitActionKind) → kind_of_value (kind_value k) ≡ k
unfolding kind_of_value
kind_of_value-kind_value normal = refl
kind_of_value-kind_value _ = refl

pub is_kind_iff : (a b : TransitActionKind) → (is_kind a b ≡ true) ↔ (a ≡ b)
is_kind_iff a b = (
  λ h.
      sym (kind_of_value-kind_value a)
      ∙ (ap kind_of_value ((==_iff _ _).0 h) ∙ kind_of_value-kind_value b),
  λ e. (==_iff _ _).1 (ap kind_value e),
)

pub first_problem_iff {ℓ} :
    {A : Type ℓ} (check : A → Option String) (xs : List A)
    → (first_problem check xs ≡ none) ↔ All (λ x. check x ≡ none) xs
unfolding first_problem
first_problem_iff check [] = (λ _. tt, λ _. refl)
first_problem_iff check (x ∷ xs) = ground (arith, first_problem_iff check xs)

All_iff {ℓ κ μ} :
    {A : Type ℓ} (P : A → Type κ) (Q : A → Type μ) (xs : List A)
    → ((x : A) → P x ↔ Q x)
    → All P xs ↔ All Q xs
All_iff P Q [] h = (λ _. tt, λ _. tt)
All_iff P Q (x ∷ xs) h =
    (λ p. ((h x).0 p.0, (All_iff P Q xs h).0 p.1), λ q. ((h x).1 q.0, (All_iff P Q xs h).1 q.1))

any_iff {ℓ} :
    {A : Type ℓ} (p : A → Bool) (P : A → Type 0) (xs : List A)
    → ((x : A) → (p x ≡ true) ↔ P x)
    → (any p xs ≡ true) ↔ Any P xs
any_iff p P [] h = (λ e. absurd (ground arith), λ z. absurd z)
any_iff p P (x ∷ xs) h = ground (arith, h x, any_iff p P xs h)

unless_iff :
    {P Q : Type 0} (b c : Bool) (text : String)
    → ((b ≡ true) ↔ P)
    → ((c ≡ true) ↔ Q)
    → (problem_if (b && not c) text ≡ none) ↔ (P → Q)
unless_iff true true text p q = (λ _ _. q.0 refl, λ _. refl)
unless_iff true false text p q =
    (λ e. absurd (ground arith), λ h. absurd (false≢true (q.1 (h (p.0 refl)))))
unless_iff false c text p q = (λ _ h. absurd (false≢true (p.1 h)), λ _. refl)

or_else-none :
    (a b c e : Option String)
    → or_else a (or_else b (or_else c e)) ≡ none
    → (a ≡ none) × (b ≡ none) × (c ≡ none) × (e ≡ none)
or_else-none a b c e h = ground arith

module _ {W : Type 0} ⦃d : Double W⦄ where
  -- Placed on a kernel, with a region if its kind marks one, and a hit ratio in (0,1] if it persists.
  pub record IsAction (a : TransitAction W) : Type 0 where
    pub placed : (a.before_kernel ≢ 0) ⊎ (a.after_kernel ≢ 0)
    pub region_bytes : is_region a.kind ≡ true → a.bytes ≢ 0
    pub region_tensor : is_region a.kind ≡ true → a.tensor ≢ 0
    pub ratio_pos : a.kind ≡ persist → d.lt nought a.hit_ratio ≡ true
    pub ratio_le : a.kind ≡ persist → d.le a.hit_ratio unit ≡ true

  abbrev pub Clears : ℕ → TransitAction W → Type 0
  Clears tensor o = (o.kind ≡ clear_policy) × (o.tensor ≡ tensor)

  abbrev pub InstallsFor : ℕ → TransitAction W → Type 0
  InstallsFor tensor o =
      (o.tensor ≡ tensor) × ((o.kind ≡ persist) ⊎ ((o.kind ≡ stream) ⊎ (o.kind ≡ rotate_window)))

  abbrev pub Joins : ℕ → TransitAction W → Type 0
  Joins event o = (o.kind ≡ wait_event) × (o.event_id ≡ event)

  -- Every persist is cleared, every clear was installed, and every fork is joined.
  pub record IsWellFormed (actions : List (TransitAction W)) : Type 0 where
    pub each : All IsAction actions
    pub cleared : All (λ a. a.kind ≡ persist → Any (Clears a.tensor) actions) actions
    pub installed : All (λ a. a.kind ≡ clear_policy → Any (InstallsFor a.tensor) actions) actions
    pub joined : All (λ a. a.kind ≡ record_event → Any (Joins a.event_id) actions) actions

  check_action_iff : (a : TransitAction W) → (check_action a ≡ none) ↔ IsAction a
  unfolding check_action check_region
  check_action_iff a = (
    λ e. record {
      placed = ground arith;
      region_bytes = λ r. ground arith;
      region_tensor = λ r. ground arith;
      ratio_pos = λ k. ground (arith, is_kind_iff a.kind persist);
      ratio_le = λ k. ground (arith, is_kind_iff a.kind persist);
    },
    λ v. ground (
      arith,
      is_kind_iff a.kind persist,
      v.placed,
      v.region_bytes,
      v.region_tensor,
      v.ratio_pos,
      v.ratio_le,
    ),
  )

  pub clears_iff : (t : ℕ) (o : TransitAction W) → (clears t o ≡ true) ↔ Clears t o
  clears_iff t o = ground (arith, is_kind_iff o.kind clear_policy)

  pub installs_for_iff : (t : ℕ) (o : TransitAction W) → (installs_for t o ≡ true) ↔ InstallsFor t o
  installs_for_iff t o = ground (
    arith,
    is_kind_iff o.kind persist,
    is_kind_iff o.kind stream,
    is_kind_iff o.kind rotate_window,
  )

  pub joins_iff : (e : ℕ) (o : TransitAction W) → (joins e o ≡ true) ↔ Joins e o
  joins_iff e o = ground (arith, is_kind_iff o.kind wait_event)

  check_cleared_iff :
      (actions : List (TransitAction W)) (a : TransitAction W)
      → (check_cleared actions a ≡ none) ↔ (a.kind ≡ persist → Any (Clears a.tensor) actions)
  unfolding check_cleared
  check_cleared_iff actions a =
      unless_iff _ _ _ (is_kind_iff a.kind persist)
        (any_iff (clears a.tensor) (Clears a.tensor) actions (clears_iff a.tensor))

  check_installed_iff :
      (actions : List (TransitAction W)) (a : TransitAction W)
      → (check_installed actions a ≡ none)
        ↔ (a.kind ≡ clear_policy → Any (InstallsFor a.tensor) actions)
  unfolding check_installed
  check_installed_iff actions a =
      unless_iff _ _ _ (is_kind_iff a.kind clear_policy)
        (any_iff (installs_for a.tensor) (InstallsFor a.tensor) actions (installs_for_iff a.tensor))

  check_joined_iff :
      (actions : List (TransitAction W)) (a : TransitAction W)
      → (check_joined actions a ≡ none) ↔ (a.kind ≡ record_event → Any (Joins a.event_id) actions)
  unfolding check_joined
  check_joined_iff actions a =
      unless_iff _ _ _ (is_kind_iff a.kind record_event)
        (any_iff (joins a.event_id) (Joins a.event_id) actions (joins_iff a.event_id))

  -- `validate`, whatever the `double` arithmetic, finds nothing wrong exactly with the plans in which
  -- each action is placed on a kernel, each region has bytes and a tensor, each persist has a hit ratio
  -- in (0,1] and is cleared, each clear drops a policy that the plan installs, and each fork is joined.
  pub validate_iff :
      (actions : List (TransitAction W)) → (validate actions ≡ none) ↔ IsWellFormed actions
  unfolding validate
  validate_iff actions = (
    λ e.
        let (e1, e2, e3, e4) = or_else-none _ _ _ _ e in
        record {
          each = (each_iff.0 ((first_problem_iff check_action actions).0 e1));
          cleared = cleared_iff.0 ((first_problem_iff (check_cleared actions) actions).0 e2);
          installed = installed_iff.0 ((first_problem_iff (check_installed actions) actions).0 e3);
          joined = joined_iff.0 ((first_problem_iff (check_joined actions) actions).0 e4);
        },
    λ v. rw (
      (first_problem_iff check_action actions).1 (each_iff.1 v.each),
      (first_problem_iff (check_cleared actions) actions).1 (cleared_iff.1 v.cleared),
      (first_problem_iff (check_installed actions) actions).1 (installed_iff.1 v.installed),
      (first_problem_iff (check_joined actions) actions).1 (joined_iff.1 v.joined),
    ),
  )
    where
      each_iff : All (λ a. check_action a ≡ none) actions ↔ All IsAction actions
      each_iff = All_iff _ IsAction actions check_action_iff

      cleared_iff :
          All (λ a. check_cleared actions a ≡ none) actions
          ↔ All (λ a. a.kind ≡ persist → Any (Clears a.tensor) actions) actions
      cleared_iff = All_iff _ _ actions (check_cleared_iff actions)

      installed_iff :
          All (λ a. check_installed actions a ≡ none) actions
          ↔ All (λ a. a.kind ≡ clear_policy → Any (InstallsFor a.tensor) actions) actions
      installed_iff = All_iff _ _ actions (check_installed_iff actions)

      joined_iff :
          All (λ a. check_joined actions a ≡ none) actions
          ↔ All (λ a. a.kind ≡ record_event → Any (Joins a.event_id) actions) actions
      joined_iff = All_iff _ _ actions (check_joined_iff actions)
