-- ===== src/Planner/Emit/Prefetches.antt =====
-- What `emit_prefetch` of planners/common.cpp adds to a plan that `validate` accepts.
use recurlocal.Base.{
  suc, ℕ, ◌≡◌, ◌≢◌, refl, inl, inr, false, ◌==◌, ◌||◌, not, List, [], ◌∷◌, none, All, All-get_elem?,
  Bool-cases, Option-cases, arith, ltb, get_elem?, find_index, if◌then◌else◌, length,
}
use recurlocal.Double.{Double}
use recurlocal.Device.{DeviceProfile}
use recurlocal.Graph.{KernelEvent, TransitGraph}
use recurlocal.Plan.{TransitPlan}
use recurlocal.Plan.Validate.{validate}
use recurlocal.Plan.Validate.Sound.{IsWellFormed, validate_iff}
use recurlocal.Planner.{TransitPlannerConfig}
use recurlocal.Planner.Candidates.{Candidate}
use recurlocal.Planner.Emit
use recurlocal.Planner.Emit.Accepted.{append-IsWellFormed}
use recurlocal.Planner.Mask

-- A tensor with bytes, and valid kernels.
pub record IsFetchable (k : Candidate) : Type 0 where
  pub tensor : k.tensor ≢ 0
  pub some_bytes : k.bytes ≢ 0
  pub kernels : All (λ j. j ≢ 0) k.consumers

last_id_ne :
    (e : KernelEvent) (es : List KernelEvent)
    → All (λ (f : KernelEvent). f.id ≢ 0) (e ∷ es)
    → Emit.last_id (e ∷ es) ≢ 0
last_id_ne e [] (nz, ok) = nz
last_id_ne e (f ∷ es) (nz, ok) = last_id_ne f es ok

module _ {W : Type 0} ⦃d : Double W⦄ where
  triple-IsWellFormed :
      (k : Candidate) (issue join event : ℕ)
      → k.tensor ≢ 0
      → k.bytes ≢ 0
      → issue ≢ 0
      → join ≢ 0
      → IsWellFormed ⦃d = d⦄ (Emit.prefetch_actions k issue join event)
  triple-IsWellFormed k issue join event tensor some_bytes i j = record {
    each = (
      record {
        placed = inl i;
        region_bytes = λ e. cc;
        region_tensor = λ e. cc;
        ratio_pos = λ e. cc;
        ratio_le = λ e. cc;
      },
      (
        record {
          placed = inl i;
          region_bytes = λ _. some_bytes;
          region_tensor = λ _. tensor;
          ratio_pos = λ e. cc;
          ratio_le = λ e. cc;
        },
        (
          record {
            placed = inl j;
            region_bytes = λ e. cc;
            region_tensor = λ e. cc;
            ratio_pos = λ e. cc;
            ratio_le = λ e. cc;
          },
          tt,
        ),
      ),
    );
    cleared = (λ e. cc, (λ e. cc, (λ e. cc, tt)));
    installed = (λ e. cc, (λ e. cc, (λ e. cc, tt)));
    joined = (λ _. inr (inr (inl (refl, refl))), (λ e. cc, (λ e. cc, tt)));
  }

  module _ (c : TransitPlannerConfig W) (device : DeviceProfile) (e : KernelEvent)
      (es : List KernelEvent) (ids : All (λ (f : KernelEvent). f.id ≢ 0) (e ∷ es)) where
    join_ne :
        (consumer : ℕ)
        → consumer ≢ 0
        → (if c.prefetch_join_at_end then Emit.last_id (e ∷ es) else consumer) ≢ 0
    join_ne consumer nz = elim (Bool-cases c.prefetch_join_at_end) [
      | inl late ↦ rw late (last_id_ne e es ids)
      | inr soon ↦ rw soon nz
    ]

    prefetch_for-IsWellFormed :
        (k : Candidate) (consumer : ℕ) (s : TransitPlan W × ℕ)
        → k.tensor ≢ 0
        → k.bytes ≢ 0
        → consumer ≢ 0
        → IsWellFormed s.0.actions
        → IsWellFormed (Emit.prefetch_for c device (e ∷ es) k consumer s).0.actions
    unfolding Emit.prefetch_for
    prefetch_for-IsWellFormed k consumer (p, event) tensor some_bytes nz h =
        elim (Option-cases (find_index (λ (f : KernelEvent). f.id == consumer) (e ∷ es))) [
          | inl missing ↦ rw (missing, Emit.prefetch_for) h
          | inr (index, found) ↦ elim (Option-cases (get_elem? (e ∷ es) index)) [
            | inl out ↦ rw (found, out, Emit.prefetch_for) h
            | inr (at, here) ↦
                let issue = Emit.issue_index c device (e ∷ es) k index at in
                elim (Option-cases (get_elem? (e ∷ es) issue)) [
                  | inl out ↦ rw (found, here, out, Emit.prefetch_for) h
                  | inr (from, there) ↦ elim (Bool-cases (issue == index)) [
                    | inl same ↦ rw (found, here, there, same, Emit.prefetch_for) h
                    | inr apart ↦
                        rw (found, here, there, apart, Emit.prefetch_for)
                          (append-IsWellFormed p.actions _ h (
                            triple-IsWellFormed k from.id _ event tensor some_bytes
                              (All-get_elem? (λ (f : KernelEvent). f.id ≢ 0) (e ∷ es) issue from ids
                                there)
                              (join_ne consumer nz)))
                  ]
                ]
          ]
        ]

    prefetch_each-IsWellFormed :
        (k : Candidate) (consumers : List ℕ) (s : TransitPlan W × ℕ)
        → k.tensor ≢ 0
        → k.bytes ≢ 0
        → All (λ j. j ≢ 0) consumers
        → IsWellFormed s.0.actions
        → IsWellFormed (Emit.prefetch_each c device (e ∷ es) k consumers s).0.actions
    prefetch_each-IsWellFormed k [] s tensor some_bytes ok h = h
    prefetch_each-IsWellFormed k (j ∷ js) s tensor some_bytes (nz, ok) h =
        prefetch_each-IsWellFormed k js _ tensor some_bytes ok
          (prefetch_for-IsWellFormed k j s tensor some_bytes nz h)

    prefetch_all-IsWellFormed :
        (ks : List Candidate) (s : TransitPlan W × ℕ)
        → All IsFetchable ks
        → IsWellFormed s.0.actions
        → IsWellFormed (Emit.prefetch_all c device (e ∷ es) ks s).0.actions
    unfolding Emit.prefetch_all
    prefetch_all-IsWellFormed [] s ok h = h
    prefetch_all-IsWellFormed (k ∷ ks) s (v, ok) h =
        elim (Bool-cases
          (not (Mask.has c.prefetch_roles k.role) || ltb k.bytes c.prefetch_min_bytes)) [
            | inl skipped ↦ rw (skipped, Emit.prefetch_all) (prefetch_all-IsWellFormed ks s ok h)
            | inr wanted ↦
                rw (wanted, Emit.prefetch_all)
                  (prefetch_all-IsWellFormed ks _ ok
                    (prefetch_each-IsWellFormed k k.consumers s v.tensor v.some_bytes v.kernels h))
          ]

  emit_prefetch-IsWellFormed :
      (c : TransitPlannerConfig W) (device : DeviceProfile) (g : TransitGraph) (ks : List Candidate)
      (p : TransitPlan W) (kernels : List KernelEvent)
      → g.kernels ≡ kernels
      → All (λ (f : KernelEvent). f.id ≢ 0) kernels
      → All IsFetchable ks
      → IsWellFormed p.actions
      → IsWellFormed (Emit.emit_prefetch c device g ks p).actions
  unfolding Emit.emit_prefetch
  emit_prefetch-IsWellFormed c device g ks p [] same ids ok h =
      elim (Bool-cases (not c.prefetch_enabled || Mask.is_empty c.prefetch_roles)) [
        | inl off ↦ rw off h
        | inr on ↦ rw (on, same) h
      ]
  emit_prefetch-IsWellFormed c device g ks p (e ∷ es) same ids ok h =
      elim (Bool-cases (not c.prefetch_enabled || Mask.is_empty c.prefetch_roles)) [
        | inl off ↦ rw off h
        | inr on ↦
            let some_kernels : (suc (length es) == 0) ≡ false = ground arith in
            rw (on, same, some_kernels) (prefetch_all-IsWellFormed c device e es ids ks (p, 1) ok h)
      ]

  -- A plan that `validate` accepts is still accepted after `emit_prefetch`, whatever the timing: every
  -- fork is joined. The kernels of the graph have valid ids, and each candidate a tensor, bytes and valid
  -- kernels.
  pub emit_prefetch-validate :
      (c : TransitPlannerConfig W) (device : DeviceProfile) (g : TransitGraph) (ks : List Candidate)
      (p : TransitPlan W)
      → All (λ (f : KernelEvent). f.id ≢ 0) g.kernels
      → All IsFetchable ks
      → validate p.actions ≡ none
      → validate (Emit.emit_prefetch c device g ks p).actions ≡ none
  emit_prefetch-validate c device g ks p ids ok accepted =
      (validate_iff (Emit.emit_prefetch c device g ks p).actions).1 (
        emit_prefetch-IsWellFormed c device g ks p g.kernels refl ids ok
          ((validate_iff p.actions).0 accepted))
