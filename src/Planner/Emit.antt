-- ===== src/Planner/Emit.antt =====
-- `emit_persist`, `emit_prefetch` and `emit_stream_hints` of planners/common.cpp. A kernel is looked
-- up by its identifier in the kernels of the graph, and is used by its position.
pub mod Accepted
pub mod Prefetches
use recurlocal.Base.{
  ℕ, zero, suc, ◌-◌, Bool, not, ◌||◌, ◌==◌, ltb, leb, List, [], ◌∷◌, ◌++◌, none, some,
  if◌then◌else◌, min, get_elem?, length, find_index, add32,
}
use recurlocal.Base.Int.{ℤ, pos, negsuc}
use recurlocal.Double.{Double, of_nat, nought}
use recurlocal.Tensor.{TensorRole}
use recurlocal.Graph.{TransitGraph, KernelEvent}
use recurlocal.Plan.{
  TransitPlan, TransitAction, TransitActionKind, persist, prefetch, clear_policy, record_event,
  wait_event, add,
}
use recurlocal.Device.{DeviceProfile}
use recurlocal.Planner.{TransitPlannerConfig, fixed_distance, bandwidth_aware, eager}
use recurlocal.Planner.Candidates.{Candidate}
use recurlocal.Planner.Cost.{linear_saving}
use recurlocal.Planner.Mask

-- `kInvalidKernelId`.
abbrev pub no_kernel : ℕ
no_kernel = 0

-- `index >= distance ? index - distance : 0`, where a negative distance is a huge `std::size_t`.
abbrev pub step_back : ℕ → ℤ → ℕ
step_back index (pos n) = if leb n index then index - n else 0
step_back index (negsuc n) = 0

-- `kernels.back().id`.
abbrev pub last_id : List KernelEvent → ℕ
last_id [] = no_kernel
last_id (e ∷ []) = e.id
last_id (e ∷ f ∷ es) = last_id (f ∷ es)

module _ {W : Type 0} ⦃d : Double W⦄ where
  -- `TransitAction{}` of a kind, for a tensor.
  abbrev pub action_for : TransitActionKind → ℕ → TensorRole → TransitAction W
  action_for kind tensor role = record {
    kind = kind;
    tensor = tensor;
    before_kernel = no_kernel;
    after_kernel = no_kernel;
    ptr = 0;
    bytes = 0;
    hit_ratio = nought;
    stream_id = 0;
    event_id = 0;
    expected_saved_bytes = 0;
    role = role;
  }

  abbrev pub clear_after : ℕ → TensorRole → ℕ → TransitAction W
  clear_after tensor role kernel = record (action_for clear_policy tensor role) {
    after_kernel = kernel;
  }

  abbrev pub persist_before : Candidate → ℕ → W → ℕ → TransitAction W
  persist_before k granted hit kernel = record (action_for persist k.tensor k.role) {
    before_kernel = kernel;
    ptr = k.desc.ptr;
    bytes = min granted k.bytes;
    hit_ratio = hit;
    expected_saved_bytes = linear_saving k granted hit;
  }

  -- A window and its clear for each consumer.
  abbrev pub bind_each : Candidate → ℕ → W → List ℕ → TransitPlan W → TransitPlan W
  bind_each k granted hit [] p = p
  bind_each k granted hit (kernel ∷ kernels) p =
      bind_each k granted hit kernels
        (add (add p (persist_before k granted hit kernel)) (clear_after k.tensor k.role kernel))

  unfoldable pub emit_persist : Candidate → ℕ → W → Bool → TransitPlan W → TransitPlan W
  emit_persist k granted hit sticky p =
      let bound = add p (persist_before k granted hit k.first_consumer) in
      if min granted k.bytes == 0
      then p
      else if sticky
      then add bound (clear_after k.tensor k.role k.last_consumer)
      else bind_each k granted hit k.consumers p

  -- Back from a position until the durations of the kernels cover the need.
  pub walk_back : List KernelEvent → W → ℕ → W → ℕ
  walk_back kernels need zero have = zero
  walk_back kernels need (suc i) have = elim (get_elem? kernels i) [
    | none ↦ suc i
    | some e ↦
        let further = walk_back kernels need i (d.add have (of_nat e.estimated_duration_ns)) in
        if d.lt have need then further else suc i
  ]

  -- The position at which the prefetch for a consumer is issued.
  pub issue_index :
      TransitPlannerConfig W → DeviceProfile → List KernelEvent → Candidate → ℕ → KernelEvent → ℕ
  issue_index c device kernels k index consumer =
      let bandwidth = device.peak_bandwidth_bytes_per_s in
      let need = d.div (d.mul (of_nat k.bytes) (d.literal 1_000_000_000 0)) (of_nat bandwidth) in
      elim c.prefetch_timing [
        | eager ↦ 0
        | fixed_distance ↦ step_back index c.prefetch_distance
        | bandwidth_aware ↦
            if bandwidth == 0 || consumer.estimated_duration_ns == 0
            then step_back index c.prefetch_distance
            else walk_back kernels need index nought
      ]

  -- The fork, the touch and the join of one prefetch.
  abbrev pub prefetch_actions : Candidate → ℕ → ℕ → ℕ → List (TransitAction W)
  prefetch_actions k issue join event =
      (record (action_for record_event k.tensor k.role) { before_kernel = issue; event_id = event }
        ∷ record (action_for prefetch k.tensor k.role) {
          ptr = k.desc.ptr;
          bytes = k.bytes;
          before_kernel = issue;
          event_id = event;
          stream_id = 1;
        }
        ∷ record (action_for wait_event k.tensor k.role) { before_kernel = join; event_id = event }
        ∷ [])

  unfoldable pub prefetch_for :
      TransitPlannerConfig W
      → DeviceProfile
      → List KernelEvent
      → Candidate
      → ℕ
      → TransitPlan W × ℕ
      → TransitPlan W × ℕ
  prefetch_for c device kernels k consumer (p, event) =
      elim (find_index (λ e. e.id == consumer) kernels) [
        | none ↦ (p, event)
        | some index ↦ elim (get_elem? kernels index) [
          | none ↦ (p, event)
          | some at ↦
              let issue = issue_index c device kernels k index at in
              elim (get_elem? kernels issue) [
                | none ↦ (p, event)
                | some from ↦
                    let join = if c.prefetch_join_at_end then last_id kernels else consumer in
                    let actions = p.actions ++ prefetch_actions k from.id join event in
                    if issue == index
                    then (p, event)
                    else (record p { actions = actions }, add32 event 1)
              ]
        ]
      ]

  abbrev pub prefetch_each :
      TransitPlannerConfig W
      → DeviceProfile
      → List KernelEvent
      → Candidate
      → List ℕ
      → TransitPlan W × ℕ
      → TransitPlan W × ℕ
  prefetch_each c device kernels k [] s = s
  prefetch_each c device kernels k (consumer ∷ consumers) s =
      prefetch_each c device kernels k consumers (prefetch_for c device kernels k consumer s)

  unfoldable pub prefetch_all :
      TransitPlannerConfig W
      → DeviceProfile
      → List KernelEvent
      → List Candidate
      → TransitPlan W × ℕ
      → TransitPlan W × ℕ
  prefetch_all c device kernels [] s = s
  prefetch_all c device kernels (k ∷ ks) s =
      let skipped = not (Mask.has c.prefetch_roles k.role) || ltb k.bytes c.prefetch_min_bytes in
      prefetch_all c device kernels ks
        (if skipped then s else prefetch_each c device kernels k k.consumers s)

  -- `emit_prefetch`.
  unfoldable pub emit_prefetch :
      TransitPlannerConfig W
      → DeviceProfile
      → TransitGraph
      → List Candidate
      → TransitPlan W
      → TransitPlan W
  emit_prefetch c device g ks p =
      let (q, event) = prefetch_all c device g.kernels ks (p, 1) in
      if not c.prefetch_enabled || Mask.is_empty c.prefetch_roles
      then p
      else if length g.kernels == 0
      then p
      else q
