-- ===== src/Runtime/Current.antt =====
-- Which plan `compile` of src/runtime.cpp leaves in force after the situation changed.
use recurlocal.Base.{
  ℕ, ◌≡◌, ◌<◌, ◌∙◌, refl, sym, ap, Bool, true, false, ◌&&◌, Option, List, if◌then◌else◌, arith,
  length, inl, inr, Bool-cases, word_size, ◌⊎◌,
}
use recurlocal.Registry.{Registry, Call}
use recurlocal.Registry
use recurlocal.Registry.Epoch.{run-epoch}
use recurlocal.Device.{RuntimeState, DeviceProfile}
use recurlocal.Executor.{ITransitExecutor}
use recurlocal.Runtime.{
  reason_for, device_changed, TransitRuntime, ITransitPlanner, PlanKey, same_key, same_device,
  compile, recompile, make_key, planned, indexed, invalidate_plan, end_recording, set_planner,
  set_device_profile, first_compile,
}
use recurlocal.Runtime.Cache.{
  same_key_refl, in_force, compile_hit, compile_miss, with_reason, reused,
}

same_key-epoch : (a b : PlanKey) → same_key a b ≡ true → a.registry_epoch ≡ b.registry_epoch
unfolding same_key
same_key-epoch a b h = ground arith

module _ {W : Type 0} {E : Type 0} ⦃x : ITransitExecutor W E⦄ where
  -- The runtime after calls on its registry.
  abbrev pub after_calls : TransitRuntime W E → List Call → TransitRuntime W E
  after_calls r cs = record r { registry = Registry.run r.registry cs }

  recompile-plan :
      (t : ℕ) (state : RuntimeState) (r : TransitRuntime W E)
      → (recompile t state r).plan ≡ planned r state
  unfolding recompile
  recompile-plan t state r = refl

  recompile-reason :
      (t : ℕ) (state : RuntimeState) (r : TransitRuntime W E)
      → (recompile t state r).stats.last_reason ≡ r.stats.last_reason
  unfolding recompile
  recompile-reason t state r = refl

  -- After a `recompile` and calls on the registry, `compile` leaves the plan of the registry as it is now.
  compile-after_recompile :
      (t0 t : ℕ) (state : RuntimeState) (r : TransitRuntime W E) (cs : List Call)
      → r.registry.epoch < word_size
      → length cs < word_size
      → (compile t state (after_calls (recompile t0 state r) cs)).plan
        ≡ planned (after_calls r cs) state
  unfolding planned recompile make_key
  compile-after_recompile t0 t state r cs w few =
      let q = after_calls (recompile t0 state r) cs in
      elim (Bool-cases (in_force q state)) [
        | inl hit ↦
            let unmoved : (Registry.run r.registry cs).epoch ≡ r.registry.epoch =
              same_key-epoch (make_key q state) q.key hit in
            ap (λ (s : TransitRuntime W E). s.plan) (compile_hit t state q hit)
            ∙ sym (
                ap (λ v. planned (record (recompile t0 state r) { registry = v }) state)
                  (run-epoch r.registry cs w few unmoved))
        | inr miss ↦ ap (λ (s : TransitRuntime W E). s.plan) (compile_miss t state q miss)
      ]

  -- A plan that was reused, when calls leave the registry's epoch or move it.
  compile-after_reuse :
      (t0 t : ℕ) (state : RuntimeState) (r : TransitRuntime W E) (cs : List Call)
      → r.registry.epoch < word_size
      → length cs < word_size
      → in_force r state ≡ true
      → ((compile t state (after_calls (compile t0 state r) cs)).plan
          ≡ planned (after_calls r cs) state)
        ⊎ ((Registry.run r.registry cs ≡ r.registry)
            × ((compile t state (after_calls (compile t0 state r) cs)).plan ≡ r.plan))
  unfolding planned make_key indexed recompile
  compile-after_reuse t0 t state r cs w few hit =
      let q = after_calls (reused r) cs in
      let back : compile t0 state r ≡ reused r = compile_hit t0 state r hit in
      elim (Bool-cases (in_force q state)) [
        | inl again ↦ inr (
          run-epoch r.registry cs w few (
              same_key-epoch (make_key q state) q.key (ground (arith, again))
              ∙ sym (same_key-epoch (make_key r state) r.key (ground (arith, hit)))),
          ap (λ p. (compile t state (after_calls p cs)).plan) back
              ∙ ap (λ (s : TransitRuntime W E). s.plan) (compile_hit t state q again),
        )
        | inr miss ↦ inl (
            ap (λ p. (compile t state (after_calls p cs)).plan) back
            ∙ ap (λ (s : TransitRuntime W E). s.plan) (compile_miss t state q miss))
      ]

  -- `compile` twice for the same state, with calls on the registry between. Where the first finds no plan in
  -- force, the second leaves the plan that the planner gives for the registry as it is then. Where the first
  -- reuses a plan, the second does that as well, or the calls changed nothing and the plan is still that one.
  pub compile-after_calls :
      (t0 t : ℕ) (state : RuntimeState) (r : TransitRuntime W E) (cs : List Call)
      → r.registry.epoch < word_size
      → length cs < word_size
      → ((compile t state (after_calls (compile t0 state r) cs)).plan
          ≡ planned (after_calls r cs) state)
        ⊎ ((in_force r state ≡ true)
            × (Registry.run r.registry cs ≡ r.registry)
            × ((compile t state (after_calls (compile t0 state r) cs)).plan ≡ r.plan))
  unfolding planned
  compile-after_calls t0 t state r cs w few = elim (Bool-cases (in_force r state)) [
    | inl hit ↦ elim (compile-after_reuse t0 t state r cs w few hit) [
      | inl anew ↦ inl anew
      | inr (still, kept) ↦ inr (hit, still, kept)
    ]
    | inr miss ↦ inl (
        ap (λ p. (compile t state (after_calls p cs)).plan) (compile_miss t0 state r miss)
        ∙ compile-after_recompile t0 t state (with_reason state r) cs w few)
  ]

  still_in_force :
      (t0 : ℕ) (first second : RuntimeState) (r : TransitRuntime W E)
      → second.active_requests ≡ first.active_requests
      → second.phase ≡ first.phase
      → in_force (recompile t0 first r) second ≡ true
  unfolding make_key recompile
  still_in_force t0 first second r e f = rw (e, f) (same_key_refl (make_key r first))

  -- States with the same phase and the same number of requests get one plan, the one made for the first of them, whatever else differs in them: the budgets granted and committed, and the capture flag.
  pub compile-recompile :
      (t0 t : ℕ) (first second : RuntimeState) (r : TransitRuntime W E)
      → second.active_requests ≡ first.active_requests
      → second.phase ≡ first.phase
      → (compile t second (recompile t0 first r)).plan ≡ planned r first
  compile-recompile t0 t first second r e f =
      ap (λ (s : TransitRuntime W E). s.plan)
        (compile_hit t second (recompile t0 first r) (still_in_force t0 first second r e f))
      ∙ recompile-plan t0 first r

  planned_anew :
      (t : ℕ) (state : RuntimeState) (r : TransitRuntime W E)
      → r.have_plan ≡ false
      → (compile t state r).stats.last_reason ≡ first_compile
  planned_anew t state r h =
      let miss : in_force r state ≡ false = ap (λ b. b && same_key (make_key r state) r.key) h in
      ap (λ (s : TransitRuntime W E). s.stats.last_reason) (compile_miss t state r miss)
      ∙ recompile-reason t state (with_reason state r)
      ∙ ap (λ b. if b then reason_for (make_key r state) r.key else first_compile) h

  -- After a new recording, a new planner or a changed device, the next compile reports a first compile.
  pub compile-last_reason :
      (t : ℕ) (state : RuntimeState) (r : TransitRuntime W E) (cyclic : Bool)
      (planner : Option (ITransitPlanner W)) (device : DeviceProfile)
      → same_device device r.device ≡ false
      → ((compile t state (end_recording cyclic r)).stats.last_reason ≡ first_compile)
        × ((compile t state (set_planner planner r)).stats.last_reason ≡ first_compile)
        × ((compile t state (set_device_profile device r)).stats.last_reason ≡ first_compile)
  unfolding end_recording set_planner set_device_profile invalidate_plan
  compile-last_reason t state r cyclic planner device h = (
    planned_anew t state (end_recording cyclic r) refl,
    planned_anew t state (set_planner planner r) refl,
    planned_anew t state (set_device_profile device r)
        (ap (λ b. (if b then r else invalidate_plan device_changed r).have_plan) h),
  )
