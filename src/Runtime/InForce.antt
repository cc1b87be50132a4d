-- ===== src/Runtime/InForce.antt =====
-- The runtime of src/runtime.cpp as a state machine, and what every reachable state keeps: the plan in force is
-- indexed, and the executor holds that plan.
use recurlocal.Base.{
  ℕ, ◌≡◌, ◌∙◌, ◌⊎◌, inl, inr, refl, sym, ap, subst, Bool, true, false, Option, none, some, List,
  if◌then◌else◌, Bool-cases,
}
use recurlocal.Tensor.{TensorDesc, TensorHandle}
use recurlocal.Graph.{KernelEvent, TensorUse}
use recurlocal.Device.{RuntimeState, DeviceProfile}
use recurlocal.Plan.{TransitPlan}
use recurlocal.Plan.Index.{finalize}
use recurlocal.Executor.{ITransitExecutor}
use recurlocal.Executor.Recording.{RecordingExecutor, recording}
use recurlocal.Executor.Replay.{before_keeps, after_keeps}
use recurlocal.Runtime.Cache.{in_force, compile_hit, compile_miss}
use recurlocal.Runtime.{
  same_device, indexed, TransitRuntime, ITransitPlanner, RecompileReason, set_device_profile,
  set_planner, set_named_planner, set_executor, register_tensor, unregister_tensor,
  unregister_handle, begin_recording, record_kernel, record_use, end_recording, compile, recompile,
  planned, invalidate_plan, begin_step, before_kernel, after_kernel, end_step, reset_stats, reset,
  on_some,
}

indexed-finalized : {W : Type 0} (p : TransitPlan W) → (indexed p).finalized ≡ true
unfolding indexed finalize
indexed-finalized p = elim (Bool-cases p.finalized) [
  | inl done ↦ ap (λ b. (if b then p else finalize p).finalized) done ∙ done
  | inr pending ↦ ap (λ b. (if b then p else finalize p).finalized) pending
]

-- What the runtime relies on: an executor holds the plan that it was given last.
pub record IsTransitExecutor (W E : Type 0) (x : ITransitExecutor W E) : Type 0 where
  pub set : (p : Option (TransitPlan W)) (e : E) → x.plan (x.set_plan p e) ≡ p
  pub begin : (e : E) → x.plan (x.begin_step e) ≡ x.plan e
  pub before : (t k : ℕ) (e : E) → x.plan (x.before_kernel t k e) ≡ x.plan e
  pub after : (t k : ℕ) (e : E) → x.plan (x.after_kernel t k e) ≡ x.plan e
  pub finish : (e : E) → x.plan (x.end_step e) ≡ x.plan e
  pub forget : (e : E) → x.plan (x.reset_stats e) ≡ x.plan e

-- One public operation of the runtime.
pub data Step (W E : Type 0) (x : ITransitExecutor W E) (r : TransitRuntime W E)
    : TransitRuntime W E → Type 0 where
  sets_device : (device : DeviceProfile) → Step W E x r (set_device_profile device r)
  sets_planner : (p : Option (ITransitPlanner W)) → Step W E x r (set_planner p r)
  names_planner :
      (p : Option (ITransitPlanner W)) (config name : List ℕ)
      → Step W E x r (set_named_planner p config name r).0
  sets_executor : (e : Option E) → Step W E x r (set_executor ⦃x = x⦄ e r)
  registers : (d : TensorDesc) → Step W E x r (register_tensor d r).0
  unregisters : (id : ℕ) → Step W E x r (unregister_tensor id r)
  unregisters_handle : (h : TensorHandle) → Step W E x r (unregister_handle h r)
  begins_recording : Step W E x r (begin_recording r)
  records_kernel : (t : ℕ) (k : KernelEvent) → Step W E x r (record_kernel t k r).0
  records_use : (t : ℕ) (u : TensorUse) → Step W E x r (record_use t u r).0
  ends_recording : (cyclic : Bool) → Step W E x r (end_recording cyclic r)
  compiles : (t : ℕ) (s : RuntimeState) → Step W E x r (compile ⦃x = x⦄ t s r)
  recompiles : (t : ℕ) (s : RuntimeState) → Step W E x r (recompile ⦃x = x⦄ t s r)
  invalidates : (reason : RecompileReason) → Step W E x r (invalidate_plan reason r)
  begins_step : Step W E x r (begin_step ⦃x = x⦄ r)
  enters_kernel : (t k : ℕ) → Step W E x r (before_kernel ⦃x = x⦄ t k r)
  leaves_kernel : (t k : ℕ) → Step W E x r (after_kernel ⦃x = x⦄ t k r)
  ends_step : Step W E x r (end_step ⦃x = x⦄ r)
  resets_stats : Step W E x r (reset_stats ⦃x = x⦄ r)
  resets : Step W E x r (reset ⦃x = x⦄ r)

pub data Reaches (W E : Type 0) (x : ITransitExecutor W E) (r : TransitRuntime W E)
    : TransitRuntime W E → Type 0 where
  here : Reaches W E x r r
  later : {q s : TransitRuntime W E} → Reaches W E x r q → Step W E x q s → Reaches W E x r s

module _ {W E : Type 0} (x : ITransitExecutor W E) where
  abbrev pub Holds : Option E → TransitPlan W → Type 0
  Holds none p = Unit
  Holds (some e) p = x.plan e ≡ some p

  -- Without a plan in force nothing is said.
  abbrev pub IsInForce : TransitRuntime W E → Type 0
  IsInForce r = (r.have_plan ≡ false) ⊎ ((r.plan.finalized ≡ true) × Holds r.executor r.plan)

  Holds-on_some :
      (f : E → E) (o : Option E) (p : TransitPlan W)
      → ((e : E) → x.plan (f e) ≡ x.plan e)
      → Holds o p
      → Holds (on_some f o) p
  Holds-on_some f none p keeps h = tt
  Holds-on_some f (some e) p keeps h = keeps e ∙ h

  Holds-set :
      IsTransitExecutor W E x
      → (o : Option E) (p : TransitPlan W) → Holds (on_some (x.set_plan (some p)) o) p
  Holds-set laws none p = tt
  Holds-set laws (some e) p = laws.set (some p) e

  IsInForce-on_executor :
      (f : E → E) (r q : TransitRuntime W E)
      → ((e : E) → x.plan (f e) ≡ x.plan e)
      → q.have_plan ≡ r.have_plan
      → q.plan ≡ r.plan
      → q.executor ≡ on_some f r.executor
      → IsInForce r
      → IsInForce q
  IsInForce-on_executor f r q keeps e g h (inl unplanned) = inl (e ∙ unplanned)
  IsInForce-on_executor f r q keeps e g h (inr (indexed, held)) = inr (
    ap (λ (p : TransitPlan W). p.finalized) g ∙ indexed,
    rw (g, h) (Holds-on_some f r.executor r.plan keeps held),
  )

  planned-finalized : (r : TransitRuntime W E) (s : RuntimeState) → (planned r s).finalized ≡ true
  unfolding planned
  planned-finalized r s = indexed-finalized _

  recompile-IsInForce :
      IsTransitExecutor W E x
      → (t : ℕ) (s : RuntimeState) (r : TransitRuntime W E) → IsInForce (recompile ⦃x = x⦄ t s r)
  unfolding recompile
  recompile-IsInForce laws t s r =
      inr (planned-finalized r s, Holds-set laws r.executor (planned r s))

  compile-IsInForce :
      IsTransitExecutor W E x
      → (t : ℕ) (s : RuntimeState) (r : TransitRuntime W E) → IsInForce r
      → IsInForce (compile ⦃x = x⦄ t s r)
  compile-IsInForce laws t s r h = elim (Bool-cases (in_force r s)) [
    | inl hit ↦ subst IsInForce (sym (compile_hit ⦃x = x⦄ t s r hit)) h
    | inr miss ↦
        subst IsInForce (sym (compile_miss ⦃x = x⦄ t s r miss)) (recompile-IsInForce laws t s _)
  ]

  indexed_in : (r : TransitRuntime W E) → r.have_plan ≡ true → IsInForce r → r.plan.finalized ≡ true
  indexed_in r in_use (inl unused) = cc
  indexed_in r in_use (inr h) = h.0

  set_executor-IsInForce :
      IsTransitExecutor W E x
      → (e : Option E) (r : TransitRuntime W E) → IsInForce r
      → IsInForce (set_executor ⦃x = x⦄ e r)
  unfolding set_executor
  set_executor-IsInForce laws e r h = elim (Bool-cases r.have_plan) [
    | inl in_use ↦
        subst IsInForce (sym (ap (λ b. if b then handed else changed) in_use))
          (inr (indexed_in r in_use h, Holds-set laws e r.plan))
    | inr unused ↦
        subst IsInForce (sym (ap (λ b. if b then handed else changed) unused)) (inl unused)
  ]
    where
      changed : TransitRuntime W E
      changed = record r { executor = e }

      handed : TransitRuntime W E
      handed = record r { executor = on_some (x.set_plan (some r.plan)) e }

  set_device-IsInForce :
      (device : DeviceProfile) (r : TransitRuntime W E)
      → IsInForce r
      → IsInForce (set_device_profile device r)
  unfolding set_device_profile invalidate_plan
  set_device-IsInForce device r h = elim (Bool-cases (same_device device r.device)) [
    | inl same ↦ rw same h
    | inr other ↦ rw other (inl refl)
  ]

  either-IsInForce :
      (b : Bool) (q s : TransitRuntime W E) (u v : Bool)
      → IsInForce q
      → IsInForce s
      → IsInForce (if◌then◌else◌ {A = TransitRuntime W E × Bool} b (q, u) (s, v)).0
  either-IsInForce true q s u v h k = h
  either-IsInForce false q s u v h k = k

  Step-IsInForce :
      IsTransitExecutor W E x
      → {r q : TransitRuntime W E} → Step W E x r q
      → IsInForce r
      → IsInForce q
  unfolding set_planner set_named_planner end_recording invalidate_plan record_kernel record_use
      reset
  Step-IsInForce laws {r = r} (sets_device d) h = set_device-IsInForce d r h
  Step-IsInForce laws (sets_planner p) h = inl refl
  Step-IsInForce laws (names_planner none c n) h = h
  Step-IsInForce laws (names_planner (some p) c n) h = inl refl
  Step-IsInForce laws {r = r} (sets_executor e) h = set_executor-IsInForce laws e r h
  Step-IsInForce laws (registers d) h = h
  Step-IsInForce laws (unregisters d) h = h
  Step-IsInForce laws (unregisters_handle d) h = h
  Step-IsInForce laws begins_recording h = h
  Step-IsInForce laws {r = r} (records_kernel t k) h = either-IsInForce r.recording _ r _ false h h
  Step-IsInForce laws {r = r} (records_use t u) h = either-IsInForce r.recording _ r _ false h h
  Step-IsInForce laws (ends_recording cyclic) h = inl refl
  Step-IsInForce laws {r = r} (compiles t s) h = compile-IsInForce laws t s r h
  Step-IsInForce laws {r = r} (recompiles t s) h = recompile-IsInForce laws t s r
  Step-IsInForce laws (invalidates reason) h = inl refl
  Step-IsInForce laws {r = r} begins_step h =
      IsInForce-on_executor x.begin_step r (begin_step ⦃x = x⦄ r) laws.begin refl refl refl h
  Step-IsInForce laws {r = r} (enters_kernel t k) h =
      IsInForce-on_executor (x.before_kernel t k) r (before_kernel ⦃x = x⦄ t k r) (laws.before t k)
        refl refl refl h
  Step-IsInForce laws {r = r} (leaves_kernel t k) h =
      IsInForce-on_executor (x.after_kernel t k) r (after_kernel ⦃x = x⦄ t k r) (laws.after t k)
        refl refl refl h
  Step-IsInForce laws {r = r} ends_step h =
      IsInForce-on_executor x.end_step r (end_step ⦃x = x⦄ r) laws.finish refl refl refl h
  Step-IsInForce laws {r = r} resets_stats h =
      IsInForce-on_executor x.reset_stats r (reset_stats ⦃x = x⦄ r) laws.forget refl refl refl h
  Step-IsInForce laws resets h = inl refl

-- Whatever operations a runtime goes through, while it has a plan in force that plan is finalized and an attached executor holds exactly it, if that is so at the start, and for every executor that holds the plan it was given last.
pub Reaches-IsInForce :
    {W E : Type 0} (x : ITransitExecutor W E) (r q : TransitRuntime W E)
    → IsTransitExecutor W E x
    → IsInForce x r
    → Reaches W E x r q
    → IsInForce x q
Reaches-IsInForce x r q laws h here = h
Reaches-IsInForce x r q laws h (later {q = m} before_it last) =
    Step-IsInForce x laws last (Reaches-IsInForce x r m laws h before_it)

-- The recording executor is such an executor.
pub recording-IsTransitExecutor : (W : Type 0) → IsTransitExecutor W (RecordingExecutor W) recording
recording-IsTransitExecutor W = record {
  set = λ p e. refl;
  begin = λ e. refl;
  before = λ t k e. before_keeps t k e;
  after = λ t k e. after_keeps t k e;
  finish = λ e. refl;
  forget = λ e. refl;
}
