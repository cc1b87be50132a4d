-- ===== src/Executor/Replay.antt =====
-- What a recording executor records while it walks the kernels of a step.
use mathlib.Core.List.{append_assoc, append-nil}
use recurlocal.Base.{
  length-append, ℕ, ◌+◌, ◌≡◌, ◌≢◌, ◌∙◌, refl, sym, ap, subst, Bool, true, false, not, ◌&&◌, ◌==◌,
  Option, none, some, List, [], ◌∷◌, ◌++◌, map, if◌then◌else◌, get_elem?, length, filterb, All,
  arith, Bool-cases, inl, inr,
}
use recurlocal.Plan.{TransitPlan, TransitAction}
use recurlocal.Plan.Index.{before, after, finalize, positions}
use recurlocal.Plan.Index.Lookup.{before-finalize, after-finalize, is_named}
use recurlocal.Executor.Recording.{
  Record, RecordingExecutor, record_of, fire, fire_all, actions_at, before_with, after_with,
  before_kernel, after_kernel, dispatch_found, count_kernel,
}

module _ {W : Type 0} where
  -- The actions placed at a kernel.
  abbrev pub placed_at : (TransitAction W → ℕ) → ℕ → List (TransitAction W) → List (TransitAction W)
  placed_at at k actions = filterb (λ a. at a == k) actions

  -- What one kernel of the plan fires.
  abbrev pub fired_at : List (TransitAction W) → ℕ → List (Record W)
  fired_at actions k =
      map (record_of k true) (placed_at (λ a. a.before_kernel) k actions)
      ++ map (record_of k false) (placed_at (λ a. a.after_kernel) k actions)

  unfoldable pub fired_by : List (TransitAction W) → List ℕ → List (Record W)
  fired_by actions [] = []
  fired_by actions (k ∷ ks) = fired_at actions k ++ fired_by actions ks

  -- The hooks around each kernel of a sequence, with the times measured.
  unfoldable pub run_kernels : (ℕ → ℕ) → List ℕ → RecordingExecutor W → RecordingExecutor W
  run_kernels clock [] e = e
  run_kernels clock (k ∷ ks) e =
      run_kernels clock ks (after_kernel (clock k) k (before_kernel (clock k) k e))

  get_elem?-append_at :
      (past actions : List (TransitAction W)) (a : TransitAction W)
      → get_elem? (past ++ (a ∷ actions)) (length past) ≡ some a
  get_elem?-append_at [] actions a = refl
  get_elem?-append_at (x ∷ past) actions a = get_elem?-append_at past actions a

  -- The positions of a kernel's actions lead to these actions.
  positions-actions_at :
      (at : TransitAction W → ℕ) (k : ℕ) (every past actions : List (TransitAction W))
      → every ≡ past ++ actions
      → actions_at every (positions at k (length past) actions) ≡ placed_at at k actions
  unfolding positions actions_at
  positions-actions_at at k every past [] e = refl
  positions-actions_at at k every past (a ∷ actions) e =
      let here : get_elem? every (length past) ≡ some a =
        ap (λ l. get_elem? l (length past)) e ∙ get_elem?-append_at past actions a in
      let next : actions_at every (positions at k (length past + 1) actions)
          ≡ placed_at at k actions =
        subst (λ n. actions_at every (positions at k n actions) ≡ placed_at at k actions)
          (length-append past (a ∷ []))
          (positions-actions_at at k every (past ++ (a ∷ [])) actions
            (e ∙ sym (append_assoc past (a ∷ []) actions))) in
      elim (Bool-cases (at a == k)) [
        | inl hit ↦ rw (hit, actions_at, here, next)
        | inr miss ↦ rw (miss, next)
      ]

  fire_all-records :
      (k : ℕ) (b : Bool) (actions : List (TransitAction W)) (e : RecordingExecutor W)
      → (fire_all k b actions e).records ≡ e.records ++ map (record_of k b) actions
  unfolding fire_all
  fire_all-records k b [] e = sym (append-nil e.records)
  fire_all-records k b (a ∷ actions) e =
      fire_all-records k b actions (fire k b a e)
      ∙ append_assoc e.records (record_of k b a ∷ []) (map (record_of k b) actions)

  fire_all-plan :
      (k : ℕ) (b : Bool) (actions : List (TransitAction W)) (e : RecordingExecutor W)
      → (fire_all k b actions e).plan ≡ e.plan
  unfolding fire_all
  fire_all-plan k b [] e = refl
  fire_all-plan k b (a ∷ actions) e = fire_all-plan k b actions (fire k b a e)

  unnamed :
      (at : TransitAction W → ℕ) (k : ℕ) (actions : List (TransitAction W))
      → is_named at k actions ≡ false
      → placed_at at k actions ≡ []
  unfolding is_named
  unnamed at k [] h = refl
  unnamed at k (a ∷ actions) h = ground (arith, unnamed at k actions)

  -- A hook's walk, for a lookup that is the scan of the plan.
  dispatch_found-records :
      (at : TransitAction W → ℕ) (elapsed k : ℕ) (b : Bool) (p : TransitPlan W)
      (found : Option (List ℕ)) (e : RecordingExecutor W)
      → k ≢ 0
      → found ≡ (
          if not (k == 0) && is_named at k p.actions
          then some (positions at k 0 p.actions)
          else none)
      → (dispatch_found elapsed k b p found e).records
        ≡ e.records ++ map (record_of k b) (placed_at at k p.actions)
  dispatch_found-records at elapsed k b p found e h q =
      elim (Bool-cases (is_named at k p.actions)) [
        | inl named ↦
            let f : found ≡ some (positions at k 0 p.actions) = q ∙ ground (arith, named, h) in
            rw f (
              fire_all-records k b (actions_at p.actions (positions at k 0 p.actions)) e
              ∙ ap (λ l. e.records ++ map (record_of k b) l)
                  (positions-actions_at at k p.actions [] p.actions refl))
        | inr absent ↦
            let f : found ≡ none = q ∙ ground (arith, absent, h) in
            rw (f, unnamed at k p.actions absent) (sym (append-nil e.records))
      ]

  dispatch_found-plan :
      (elapsed k : ℕ) (b : Bool) (p : TransitPlan W) (found : Option (List ℕ))
      (e : RecordingExecutor W)
      → (dispatch_found elapsed k b p found e).plan ≡ e.plan
  dispatch_found-plan elapsed k b p none e = refl
  dispatch_found-plan elapsed k b p (some is) e = fire_all-plan k b (actions_at p.actions is) e

  before_with-plan :
      (o : Option (TransitPlan W)) (elapsed k : ℕ) (e : RecordingExecutor W)
      → (before_with o elapsed k e).plan ≡ e.plan
  before_with-plan none elapsed k e = refl
  before_with-plan (some p) elapsed k e =
      dispatch_found-plan elapsed k true p (before p k) (count_kernel e)

  after_with-plan :
      (o : Option (TransitPlan W)) (elapsed k : ℕ) (e : RecordingExecutor W)
      → (after_with o elapsed k e).plan ≡ e.plan
  after_with-plan none elapsed k e = refl
  after_with-plan (some p) elapsed k e = dispatch_found-plan elapsed k false p (after p k) e

  pub before_keeps :
      (elapsed k : ℕ) (e : RecordingExecutor W) → (before_kernel elapsed k e).plan ≡ e.plan
  unfolding before_kernel
  before_keeps elapsed k e = before_with-plan e.plan elapsed k e

  pub after_keeps :
      (elapsed k : ℕ) (e : RecordingExecutor W) → (after_kernel elapsed k e).plan ≡ e.plan
  unfolding after_kernel
  after_keeps elapsed k e = after_with-plan e.plan elapsed k e

  before_kernel-records :
      (elapsed k : ℕ) (p : TransitPlan W) (e : RecordingExecutor W)
      → k ≢ 0
      → e.plan ≡ some (finalize p)
      → ((before_kernel elapsed k e).records
          ≡ e.records ++ map (record_of k true) (placed_at (λ a. a.before_kernel) k p.actions))
        × ((before_kernel elapsed k e).plan ≡ some (finalize p))
  unfolding before_kernel finalize
  before_kernel-records elapsed k p e h q = (
    ap (λ pl. (before_with pl elapsed k e).records) q
        ∙ dispatch_found-records (λ a. a.before_kernel) elapsed k true (finalize p)
            (before (finalize p) k) (count_kernel e) h (before-finalize p k),
    ap (λ pl. (before_with pl elapsed k e).plan) q
        ∙ dispatch_found-plan elapsed k true (finalize p) (before (finalize p) k) (count_kernel e)
        ∙ q,
  )

  after_kernel-records :
      (elapsed k : ℕ) (p : TransitPlan W) (e : RecordingExecutor W)
      → k ≢ 0
      → e.plan ≡ some (finalize p)
      → ((after_kernel elapsed k e).records
          ≡ e.records ++ map (record_of k false) (placed_at (λ a. a.after_kernel) k p.actions))
        × ((after_kernel elapsed k e).plan ≡ some (finalize p))
  unfolding after_kernel finalize
  after_kernel-records elapsed k p e h q = (
    ap (λ pl. (after_with pl elapsed k e).records) q
        ∙ dispatch_found-records (λ a. a.after_kernel) elapsed k false (finalize p)
            (after (finalize p) k) (e) h (after-finalize p k),
    ap (λ pl. (after_with pl elapsed k e).plan) q
        ∙ dispatch_found-plan elapsed k false (finalize p) (after (finalize p) k) (e)
        ∙ q,
  )

  -- Walking valid kernels with a finalized plan records, kernel by kernel, the plan's actions before it and then those after it, each in plan order, and nothing else.
  pub run_kernels-records :
      (clock : ℕ → ℕ) (ks : List ℕ) (p : TransitPlan W) (e : RecordingExecutor W)
      → All (λ k. k ≢ 0) ks
      → e.plan ≡ some (finalize p)
      → (run_kernels clock ks e).records ≡ e.records ++ fired_by p.actions ks
  unfolding run_kernels fired_by
  run_kernels-records clock [] p e h q = sym (append-nil e.records)
  run_kernels-records clock (k ∷ ks) p e h q =
      let (r1, q1) = before_kernel-records (clock k) k p e h.0 q in
      let (r2, q2) = after_kernel-records (clock k) k p (before_kernel (clock k) k e) h.0 q1 in
      run_kernels-records clock ks p (after_kernel (clock k) k (before_kernel (clock k) k e)) h.1 q2
      ∙ simp (r1, r2, append_assoc)
