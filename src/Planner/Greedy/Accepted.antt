-- ===== src/Planner/Greedy/Accepted.antt =====
-- The loops of the greedy and the concurrency planner keep plans accepted.
use recurlocal.Base.{
  if-both, All-mono, ℕ, ◌-◌, ◌≡◌, ◌≢◌, refl, Bool, true, false, ◌==◌, none, List, [], ◌∷◌, All,
  All-append, min, filterb,
}
use recurlocal.Base.Int.{ℤ}
use recurlocal.Base.Sort.{sort, All-sort}
use recurlocal.Double.{Double, nought, unit}
use recurlocal.Graph.{KernelEvent, TransitGraph}
use recurlocal.Device.{DeviceProfile}
use recurlocal.Plan.{TransitPlan, no_plan}
use recurlocal.Plan.Validate.{validate, first_problem}
use recurlocal.Planner.{TransitPlannerConfig}
use recurlocal.Planner.Candidates.{Candidate}
use recurlocal.Planner.Emit.{emit_prefetch, emit_persist}
use recurlocal.Planner.Emit.Accepted.{emit_persist-validate}
use recurlocal.Planner.Emit.Prefetches.{emit_prefetch-validate, IsFetchable}
use recurlocal.Planner.Greedy.{Emission, greedy_step, greedy_fill, scores_above}
use recurlocal.Planner.Concurrency.{Sharing, share_step, share_all, share_requests, of_request}

-- A candidate with a tensor, bytes and valid kernels, as `build_candidates` makes them.
pub record IsPlannable (k : Candidate) : Type 0 where
  pub fetchable : IsFetchable k
  pub first : k.first_consumer ≢ 0
  pub last : k.last_consumer ≢ 0

All-filterb :
    (P : Candidate → Type 0) (p : Candidate → Bool) (ks : List Candidate)
    → All P ks
    → All P (filterb p ks)
All-filterb P p [] h = tt
All-filterb P p (k ∷ ks) h =
    if-both (All P) (p k) (h.0, All-filterb P p ks h.1) (All-filterb P p ks h.1)

module _ {W : Type 0} ⦃d : Double W⦄ (c : TransitPlannerConfig W)
    (positive : d.lt nought c.hit_ratio ≡ true) (bounded : d.le c.hit_ratio unit ≡ true) where
  persist-accepted :
      (k : Candidate) (granted : ℕ) (p : TransitPlan W)
      → IsPlannable k
      → validate p.actions ≡ none
      → validate (emit_persist k granted c.hit_ratio false p).actions ≡ none
  persist-accepted k granted p v h =
      emit_persist-validate k granted c.hit_ratio false p v.fetchable.tensor positive bounded
        (v.first, (v.last, v.fetchable.kernels)) h

  greedy_fill-accepted :
      (ks : List Candidate) (s : Emission W)
      → All IsPlannable ks
      → validate s.plan.actions ≡ none
      → validate (greedy_fill c ks s).plan.actions ≡ none
  unfolding greedy_fill greedy_step
  greedy_fill-accepted [] s ok h = h
  greedy_fill-accepted (k ∷ ks) s (v, ok) h = greedy_fill-accepted ks (greedy_step c k s) ok (
      if-both (λ (e : Emission W). validate e.plan.actions ≡ none) (s.remaining == 0) h
        (if-both (λ (e : Emission W). validate e.plan.actions ≡ none) _ h
          (persist-accepted k (min s.remaining k.bytes) s.plan v h)))

  -- The plan is accepted, and what was emitted can be fetched.
  abbrev IsShared : Sharing W → Type 0
  IsShared s = (validate s.plan.actions ≡ none) × All IsFetchable s.emitted

  share_all-IsShared :
      (ks : List Candidate) (s : Sharing W)
      → All IsPlannable ks
      → IsShared s
      → IsShared (share_all c ks s)
  unfolding share_all share_step
  share_all-IsShared [] s ok h = h
  share_all-IsShared (k ∷ ks) s (v, ok) h = share_all-IsShared ks (share_step c k s) ok (
      if-both IsShared _ h (
        persist-accepted k (min s.remaining k.bytes) s.plan v h.0,
        All-append IsFetchable s.emitted (k ∷ []) h.1 (v.fetchable, tt),
      ))

  share_requests-IsShared :
      (rs : List ℤ) (admitted share : ℕ) (ks : List Candidate) (s : Sharing W)
      → All IsPlannable ks
      → IsShared s
      → IsShared (share_requests c rs admitted share ks s)
  unfolding share_requests
  share_requests-IsShared [] admitted share ks s ok h = h
  share_requests-IsShared (r ∷ rs) admitted share ks s ok h =
      share_requests-IsShared rs (admitted - 1) share ks _ ok (
        share_all-IsShared (sort (scores_above W) (filterb (of_request r) ks)) _
          (All-sort IsPlannable (scores_above W) _ (All-filterb IsPlannable (of_request r) ks ok))
          h)

empty_accepted : (W : Type 0) ⦃d : Double W⦄ → validate (no_plan {W = W}).actions ≡ none
unfolding validate first_problem
empty_accepted W = refl

module _ {W : Type 0} ⦃d : Double W⦄ where
  -- What the greedy planner emits for its candidates and prefetches is accepted by `validate`, for plannable candidates, valid kernel ids and a hit ratio in (0,1].
  pub greedy_fill-validate :
      (c : TransitPlannerConfig W) (device : DeviceProfile) (g : TransitGraph) (ks : List Candidate)
      (budget : ℕ)
      → d.lt nought c.hit_ratio ≡ true
      → d.le c.hit_ratio unit ≡ true
      → All (λ (f : KernelEvent). f.id ≢ 0) g.kernels
      → All IsPlannable ks
      → validate
          (emit_prefetch c device g
            (sort (scores_above W) ks)
            (greedy_fill c
              (sort (scores_above W) ks)
              (record { plan = no_plan; declined = []; remaining = budget })).plan).actions
        ≡ none
  greedy_fill-validate c device g ks budget positive bounded ids ok =
      let sorted = All-sort IsPlannable (scores_above W) ks ok in
      emit_prefetch-validate c device g (sort (scores_above W) ks) _ ids
        (All-mono IsPlannable _ sorted (λ k v. v.fetchable))
        (greedy_fill-accepted c positive bounded (sort (scores_above W) ks)
          (record { plan = no_plan; declined = []; remaining = budget }) sorted (empty_accepted W))

  -- What the concurrency planner emits for its requests and prefetches is accepted by `validate`, however the budget is shared, for plannable candidates, valid kernel ids and a hit ratio in (0,1].
  pub share_requests-validate :
      (c : TransitPlannerConfig W) (device : DeviceProfile) (g : TransitGraph) (ks : List Candidate)
      (rs : List ℤ) (admitted share : ℕ)
      → d.lt nought c.hit_ratio ≡ true
      → d.le c.hit_ratio unit ≡ true
      → All (λ (f : KernelEvent). f.id ≢ 0) g.kernels
      → All IsPlannable ks
      → let s =
          share_requests c rs admitted share ks
            (record { plan = no_plan; emitted = []; declined = []; remaining = 0 }) in
        validate (emit_prefetch c device g s.emitted s.plan).actions ≡ none
  share_requests-validate c device g ks rs admitted share positive bounded ids ok =
      let (accepted, fetchable) =
        share_requests-IsShared c positive bounded rs admitted share ks
          (record { plan = no_plan; emitted = []; declined = []; remaining = 0 }) ok
          (empty_accepted W, tt) in
      emit_prefetch-validate c device g _ _ ids fetchable accepted
