-- ===== src/Trace/ReadPlan/NoAddress.antt =====
-- What `read_plan` of src/trace.cpp lets through.
use Prim.Native.String.{String}
use recurlocal.Base.{
  ◌==◌, if-both, length, ℕ, ◌≡◌, refl, true, none, some, List, [], ◌∷◌, ◌++◌, All, Option,
  Option-cases, inl, inr,
}
use recurlocal.Double.{Double}
use recurlocal.Plan.{TransitAction, TransitPlan, no_plan}
use recurlocal.Plan.Index.{finalize}
use recurlocal.Plan.Validate.{validate}
use recurlocal.Plan.Validate.Sound.{IsWellFormed, validate_iff}
use recurlocal.Trace.{Read, done, refused, out_of_fuel}
use recurlocal.Trace.Json
use recurlocal.Trace.ReadPlan

module _ {W : Type 0} ⦃d : Double W⦄ where
  -- No action has an address.
  abbrev pub HasNoAddress : TransitPlan W → Type 0
  HasNoAddress p = All (λ a. a.ptr ≡ 0) p.actions

  All-snoc :
      (actions : List (TransitAction W)) (a : TransitAction W)
      → All (λ a. a.ptr ≡ 0) actions
      → a.ptr ≡ 0
      → All (λ a. a.ptr ≡ 0) (actions ++ (a ∷ []))
  All-snoc [] a h e = (e, _)
  All-snoc (b ∷ actions) a (h, hs) e = (h, All-snoc actions a hs e)

  read_actions-HasNoAddress :
      (items : Json.Array W) (p : TransitPlan W)
      → HasNoAddress p
      → HasNoAddress (ReadPlan.read_actions items p).0
  unfolding ReadPlan.read_actions ReadPlan.action_of
  read_actions-HasNoAddress Json.no_elements p h = h
  read_actions-HasNoAddress (Json.element item items) p h =
      elim (Option-cases (ReadPlan.kind_of_item item)) [
        | inl unknown ↦ rw (unknown, ReadPlan.read_actions) h
        | inr (kind, known) ↦
            rw (known, ReadPlan.read_actions)
              (read_actions-HasNoAddress items _
                (All-snoc p.actions (ReadPlan.action_of kind item) h refl))
      ]

  read_declines-actions :
      (items : Json.Array W) (p : TransitPlan W)
      → (ReadPlan.read_declines items p).actions ≡ p.actions
  unfolding ReadPlan.read_declines
  read_declines-actions Json.no_elements p = refl
  read_declines-actions (Json.element item items) p = read_declines-actions items _

  with_cost-HasNoAddress :
      (o : Option (Json.Value W)) (p : TransitPlan W)
      → HasNoAddress p
      → HasNoAddress (ReadPlan.with_cost o p)
  unfolding ReadPlan.with_cost
  with_cost-HasNoAddress (some cost) p h = h
  with_cost-HasNoAddress none p h = h

  with_name-HasNoAddress :
      (text_of : List ℕ → String) (o : Option (Json.Value W)) (p : TransitPlan W)
      → HasNoAddress p
      → HasNoAddress (ReadPlan.with_name text_of o p)
  unfolding ReadPlan.with_name
  with_name-HasNoAddress text_of (some name) p h = h
  with_name-HasNoAddress text_of none p h = h

  -- What a plan is that `read_plan` accepts.
  abbrev pub IsReadable : TransitPlan W × Option ReadPlan.PlanProblem → Type 0
  IsReadable (p, some problem) = HasNoAddress p
  IsReadable (p, none) = HasNoAddress p × (p.finalized ≡ true) × IsWellFormed p.actions

  judged-IsReadable :
      (p : TransitPlan W) (o : Option String)
      → HasNoAddress p
      → p.finalized ≡ true
      → validate p.actions ≡ o
      → IsReadable (ReadPlan.judged p o)
  unfolding ReadPlan.judged
  judged-IsReadable p none h f e = (h, f, (validate_iff p.actions).0 e)
  judged-IsReadable p (some problem) h f e = h

  after_actions-IsReadable :
      (root : Json.Value W) (r : TransitPlan W × Option ReadPlan.PlanProblem)
      → HasNoAddress r.0
      → IsReadable (ReadPlan.after_actions root r)
  unfolding ReadPlan.after_actions ReadPlan.checked finalize
  after_actions-IsReadable root (p, some problem) h = h
  after_actions-IsReadable root (p, none) h =
      let items = ReadPlan.elements_at root "declines" in
      let o = ReadPlan.find_named root "cost_model" in
      let q = ReadPlan.with_cost o (ReadPlan.read_declines items p) in
      judged-IsReadable (finalize q) (validate q.actions)
        (with_cost-HasNoAddress o (ReadPlan.read_declines items p)
          (rw (read_declines-actions items p) h))
        refl refl

  of_version-IsReadable :
      (text_of : List ℕ → String) (root : Json.Value W) (o : Option (Json.Value W))
      → IsReadable (ReadPlan.of_version text_of root o)
  unfolding ReadPlan.of_version
  of_version-IsReadable text_of root none = _
  of_version-IsReadable text_of root (some version) =
      let named = ReadPlan.with_name text_of (ReadPlan.find_named root "planner") no_plan in
      if-both IsReadable (ReadPlan.as_u64 version == 1)
        (after_actions-IsReadable root
          (ReadPlan.read_actions (ReadPlan.elements_at root "actions") named)
          (read_actions-HasNoAddress (ReadPlan.elements_at root "actions") named
            (with_name-HasNoAddress text_of (ReadPlan.find_named root "planner") no_plan _)))
        _

  plan_of_root-IsReadable :
      (text_of : List ℕ → String) (root : Json.Value W)
      → IsReadable (ReadPlan.plan_of_root text_of root)
  unfolding ReadPlan.plan_of_root ReadPlan.plan_of
  plan_of_root-IsReadable text_of Json.null = _
  plan_of_root-IsReadable text_of (Json.boolean b) = _
  plan_of_root-IsReadable text_of (Json.number x) = _
  plan_of_root-IsReadable text_of (Json.quoted t) = _
  plan_of_root-IsReadable text_of (Json.array a) = _
  plan_of_root-IsReadable text_of (Json.object o) = of_version-IsReadable text_of (Json.object o) _

  plan_of_answer-IsReadable :
      (text_of : List ℕ → String) (size : ℕ) (r : Read (Json.Value W))
      → IsReadable (ReadPlan.plan_of_answer text_of size r)
  unfolding ReadPlan.plan_of_answer
  plan_of_answer-IsReadable text_of size (done v rest) = plan_of_root-IsReadable text_of v
  plan_of_answer-IsReadable text_of size (refused message rest) = _
  plan_of_answer-IsReadable text_of size out_of_fuel = _

  -- Whatever a plan file holds, no action of the plan that is read from it has an address, also where the
  -- file is refused half way; and a plan that is not refused is finalized and well formed.
  pub read_plan-IsReadable :
      (text_of : List ℕ → String) (strtod : List ℕ → W) (json : List ℕ)
      → IsReadable (ReadPlan.read_plan text_of strtod json)
  unfolding ReadPlan.read_plan
  read_plan-IsReadable text_of strtod json = plan_of_answer-IsReadable text_of (length json) _
