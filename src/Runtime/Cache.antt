-- ===== src/Runtime/Cache.antt =====
-- The plan cache of src/runtime.cpp: when `compile` reuses the plan in force, and what it says otherwise.
use recurlocal.Base.{
  ◌<◌, ℕ, suc, ◌+◌, ◌%◌, ◌≡◌, ◌∙◌, refl, sym, ap, subst, Bool, true, false, ◌&&◌, List, [], ◌∷◌,
  if◌then◌else◌, add64, arith, length, inl, inr, Bool-cases, ==_refl, word_size,
}
use recurlocal.Base.Int.{ℤ, eqℤ, eqℤ_iff}
use recurlocal.Device.{RuntimeState, phase_value}
use recurlocal.Executor.{ITransitExecutor}
use recurlocal.Runtime.{
  reason_for, TransitRuntime, PlanKey, same_key, compile, recompile, make_key, first_compile,
}

eqℤ_refl : (a : ℤ) → eqℤ a a ≡ true
eqℤ_refl a = (eqℤ_iff a a).1 refl

pub same_key_refl : (k : PlanKey) → same_key k k ≡ true
unfolding same_key
same_key_refl k = rw (
  ==_refl k.registry_epoch,
  ==_refl k.graph_digest,
  eqℤ_refl k.active_requests,
  ==_refl (phase_value k.phase),
  eqℤ_refl k.device,
  ==_refl k.config_digest,
)

one_more : (n k : ℕ) → (n + 1 + k) % word_size ≡ (n + suc k) % word_size
one_more n k = omega arith

module _ {W : Type 0} {E : Type 0} where
  -- The test of `compile`: a plan is in force and its key is the one of the state.
  abbrev pub in_force : TransitRuntime W E → RuntimeState → Bool
  in_force r state = r.have_plan && same_key (make_key r state) r.key

  abbrev pub with_reuses : ℕ → TransitRuntime W E → TransitRuntime W E
  with_reuses n r = record r { stats = record r.stats { plan_reuses = n } }

  abbrev pub reused : TransitRuntime W E → TransitRuntime W E
  reused r = with_reuses (add64 r.stats.plan_reuses 1) r

module _ {W : Type 0} {E : Type 0} ⦃x : ITransitExecutor W E⦄ where
  abbrev pub with_reason : RuntimeState → TransitRuntime W E → TransitRuntime W E
  with_reason state r =
      let reason = if r.have_plan then reason_for (make_key r state) r.key else first_compile in
      record r { stats = record r.stats { last_reason = reason } }

  pub compile_hit :
      (elapsed : ℕ) (state : RuntimeState) (r : TransitRuntime W E)
      → in_force r state ≡ true
      → compile elapsed state r ≡ reused r
  unfolding compile
  compile_hit elapsed state r h =
      ap (λ b. if b then reused r else recompile elapsed state (with_reason state r)) h

  pub compile_miss :
      (elapsed : ℕ) (state : RuntimeState) (r : TransitRuntime W E)
      → in_force r state ≡ false
      → compile elapsed state r ≡ recompile elapsed state (with_reason state r)
  unfolding compile
  compile_miss elapsed state r h =
      ap (λ b. if b then reused r else recompile elapsed state (with_reason state r)) h

  recompile-in_force :
      (elapsed : ℕ) (state : RuntimeState) (r : TransitRuntime W E)
      → in_force (recompile elapsed state r) state ≡ true
  unfolding recompile make_key
  recompile-in_force elapsed state r = same_key_refl (make_key r state)

  pub compile-in_force :
      (elapsed : ℕ) (state : RuntimeState) (r : TransitRuntime W E)
      → in_force (compile elapsed state r) state ≡ true
  unfolding make_key
  compile-in_force elapsed state r = elim (Bool-cases (in_force r state)) [
    | inl hit ↦ subst (λ q. in_force q state ≡ true) (sym (compile_hit elapsed state r hit)) hit
    | inr miss ↦
        subst (λ q. in_force q state ≡ true) (sym (compile_miss elapsed state r miss))
          (recompile-in_force elapsed state (with_reason state r))
  ]

  -- A loop that compiles for the same state at each of its steps.
  unfoldable pub compile_each : List ℕ → RuntimeState → TransitRuntime W E → TransitRuntime W E
  compile_each [] state r = r
  compile_each (t ∷ ts) state r = compile_each ts state (compile t state r)

  compile_each_hit :
      (ts : List ℕ) (state : RuntimeState) (r : TransitRuntime W E) (n : ℕ)
      → in_force r state ≡ true
      → r.stats.plan_reuses ≡ n % word_size
      → compile_each ts state r ≡ with_reuses ((n + length ts) % word_size) r
  unfolding compile_each make_key
  compile_each_hit [] state r n h e = ap (λ m. with_reuses m r) (omega (arith, e))
  compile_each_hit (t ∷ ts) state r n h e =
      ap (λ q. compile_each ts state q) (compile_hit t state r h)
      ∙ compile_each_hit ts state (reused r) (n + 1) h (omega (arith, e))
      ∙ ap (λ m. with_reuses m r) (one_more n (length ts))

  reuses_in_word :
      (t : ℕ) (state : RuntimeState) (r : TransitRuntime W E)
      → r.stats.plan_reuses < word_size
      → (compile t state r).stats.plan_reuses < word_size
  unfolding recompile
  reuses_in_word t state r h = elim (Bool-cases (in_force r state)) [
    | inl hit ↦
        subst (λ (q : TransitRuntime W E). q.stats.plan_reuses < word_size)
          (sym (compile_hit t state r hit)) (omega arith)
    | inr miss ↦
        subst (λ (q : TransitRuntime W E). q.stats.plan_reuses < word_size)
          (sym (compile_miss t state r miss)) h
  ]

  -- In a steady loop only the first compile can plan: every later one for the same state leaves the runtime as it is and counts one reuse.
  pub compile_each-compile :
      (t : ℕ) (ts : List ℕ) (state : RuntimeState) (r : TransitRuntime W E)
      → r.stats.plan_reuses < word_size
      → compile_each ts state (compile t state r)
        ≡ with_reuses
            (((compile t state r).stats.plan_reuses + length ts) % word_size)
            (compile t state r)
  compile_each-compile t ts state r h =
      let few = reuses_in_word t state r h in
      compile_each_hit ts state (compile t state r) (compile t state r).stats.plan_reuses
        (compile-in_force t state r) (omega arith)
