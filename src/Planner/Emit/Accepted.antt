-- ===== src/Planner/Emit/Accepted.antt =====
-- What `emit_persist` of planners/common.cpp adds to a plan that `validate` accepts.
use recurlocal.Base.{
  ℕ, ◌≡◌, ◌≢◌, refl, sym, subst, inl, inr, Bool, true, ◌==◌, List, [], ◌∷◌, ◌++◌, none, All,
  All-append, All-mono, Bool-cases, arith, min, ap,
}
use recurlocal.Double.{Double, nought, unit}
use recurlocal.Plan.{TransitPlan, TransitAction}
use recurlocal.Plan.Validate.{validate}
use recurlocal.Plan.Validate.Sound.{
  Any, IsAction, Clears, InstallsFor, Joins, IsWellFormed, validate_iff,
}
use recurlocal.Planner.Candidates.{Candidate}
use recurlocal.Planner.Emit

Any-append_left : {A : Type 0} (P : A → Type 0) (xs ys : List A) → Any P xs → Any P (xs ++ ys)
Any-append_left P [] ys h = absurd h
Any-append_left P (x ∷ xs) ys (inl p) = inl p
Any-append_left P (x ∷ xs) ys (inr h) = inr (Any-append_left P xs ys h)

Any-append_right : {A : Type 0} (P : A → Type 0) (xs ys : List A) → Any P ys → Any P (xs ++ ys)
Any-append_right P [] ys h = h
Any-append_right P (x ∷ xs) ys h = inr (Any-append_right P xs ys h)

append_two :
    {A : Type 0} (xs : List A) (a b : A) → (xs ++ (a ∷ [])) ++ (b ∷ []) ≡ xs ++ (a ∷ b ∷ [])
append_two [] a b = refl
append_two (x ∷ xs) a b = ap (λ l. x ∷ l) (append_two xs a b)

-- What each action needs of the others, it finds in its own part or in the other.
module _ {A : Type 0} (K : A → Type 0) (R : A → A → Type 0) where
  joined-needs :
      (xs ys : List A)
      → All (λ a. K a → Any (R a) xs) xs
      → All (λ a. K a → Any (R a) ys) ys
      → All (λ a. K a → Any (R a) (xs ++ ys)) (xs ++ ys)
  joined-needs xs ys h k =
      All-append (λ a. K a → Any (R a) (xs ++ ys)) xs ys
        (All-mono _ xs h (λ a f e. Any-append_left (R a) xs ys (f e)))
        (All-mono _ ys k (λ a f e. Any-append_right (R a) xs ys (f e)))

module _ {W : Type 0} ⦃d : Double W⦄ where
  -- Two well-formed parts make a well-formed plan.
  pub append-IsWellFormed :
      (acts bs : List (TransitAction W))
      → IsWellFormed acts
      → IsWellFormed bs
      → IsWellFormed (acts ++ bs)
  append-IsWellFormed acts bs h k = record {
    each = All-append IsAction acts bs h.each k.each;
    cleared = joined-needs _ (λ a. Clears a.tensor) acts bs h.cleared k.cleared;
    installed = joined-needs _ (λ a. InstallsFor a.tensor) acts bs h.installed k.installed;
    joined = joined-needs _ (λ a. Joins a.event_id) acts bs h.joined k.joined;
  }

  -- A window of a candidate with its clear.
  pair-IsWellFormed :
      (k : Candidate) (granted : ℕ) (hit : W) (first last : ℕ)
      → min granted k.bytes ≢ 0
      → k.tensor ≢ 0
      → d.lt nought hit ≡ true
      → d.le hit unit ≡ true
      → first ≢ 0
      → last ≢ 0
      → IsWellFormed
          (Emit.persist_before k granted hit first ∷ Emit.clear_after k.tensor k.role last ∷ [])
  pair-IsWellFormed k granted hit first last some_bytes tensor pos le f l = record {
    each = (
      record {
        placed = inl f;
        region_bytes = λ _. some_bytes;
        region_tensor = λ _. tensor;
        ratio_pos = λ _. pos;
        ratio_le = λ _. le;
      },
      (
        record {
          placed = inr l;
          region_bytes = λ e. cc;
          region_tensor = λ e. cc;
          ratio_pos = λ e. cc;
          ratio_le = λ e. cc;
        },
        tt,
      ),
    );
    cleared = (λ _. inr (inl (refl, refl)), (λ e. cc, tt));
    installed = (λ e. cc, (λ _. inl (refl, inl refl), tt));
    joined = (λ e. cc, (λ e. cc, tt));
  }

  bind_each-IsWellFormed :
      (k : Candidate) (granted : ℕ) (hit : W) (kernels : List ℕ) (p : TransitPlan W)
      → min granted k.bytes ≢ 0
      → k.tensor ≢ 0
      → d.lt nought hit ≡ true
      → d.le hit unit ≡ true
      → All (λ j. j ≢ 0) kernels
      → IsWellFormed p.actions
      → IsWellFormed (Emit.bind_each k granted hit kernels p).actions
  bind_each-IsWellFormed k granted hit [] p some_bytes tensor pos le ok h = h
  bind_each-IsWellFormed k granted hit (j ∷ js) p some_bytes tensor pos le (nz, ok) h =
      bind_each-IsWellFormed k granted hit js _ some_bytes tensor pos le ok (
        subst IsWellFormed (sym (append_two p.actions _ _)) (
          append-IsWellFormed p.actions _ h
            (pair-IsWellFormed k granted hit j j some_bytes tensor pos le nz nz)))

  emit_persist-IsWellFormed :
      (k : Candidate) (granted : ℕ) (hit : W) (sticky : Bool) (p : TransitPlan W)
      → k.tensor ≢ 0
      → d.lt nought hit ≡ true
      → d.le hit unit ≡ true
      → All (λ j. j ≢ 0) (k.first_consumer ∷ k.last_consumer ∷ k.consumers)
      → IsWellFormed p.actions
      → IsWellFormed (Emit.emit_persist k granted hit sticky p).actions
  unfolding Emit.emit_persist
  emit_persist-IsWellFormed k granted hit sticky p tensor pos le (f, (l, ok)) h =
      elim (Bool-cases (min granted k.bytes == 0)) [
        | inl nothing ↦ rw nothing h
        | inr some_bytes ↦
            let nz : min granted k.bytes ≢ 0 = ground arith in
            elim (Bool-cases sticky) [
              | inl one ↦
                  rw (some_bytes, one)
                    (subst IsWellFormed (sym (append_two p.actions _ _)) (
                      append-IsWellFormed p.actions _ h (
                        pair-IsWellFormed k granted hit k.first_consumer k.last_consumer nz tensor
                          pos le f l)))
              | inr each ↦
                  rw (some_bytes, each)
                    (bind_each-IsWellFormed k granted hit k.consumers p nz tensor pos le ok h)
            ]
      ]

  -- A plan that `validate` accepts is still accepted after `emit_persist`, sticky or for each consumer,
  -- if the candidate names a tensor and valid kernels and the hit ratio is in (0,1].
  pub emit_persist-validate :
      (k : Candidate) (granted : ℕ) (hit : W) (sticky : Bool) (p : TransitPlan W)
      → k.tensor ≢ 0
      → d.lt nought hit ≡ true
      → d.le hit unit ≡ true
      → All (λ j. j ≢ 0) (k.first_consumer ∷ k.last_consumer ∷ k.consumers)
      → validate p.actions ≡ none
      → validate (Emit.emit_persist k granted hit sticky p).actions ≡ none
  emit_persist-validate k granted hit sticky p tensor pos le ok accepted =
      (validate_iff (Emit.emit_persist k granted hit sticky p).actions).1 (
        emit_persist-IsWellFormed k granted hit sticky p tensor pos le ok
          ((validate_iff p.actions).0 accepted))
