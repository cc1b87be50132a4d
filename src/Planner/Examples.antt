-- ===== src/Planner/Examples.antt =====
-- The admission rules and the window cap on small candidates, in fixed point.
use recurlocal.Planner.Greedy.{greedy_fill, scores_above}
use recurlocal.Planner.Greedy.Accepted.{IsPlannable, greedy_fill-validate, share_requests-validate}
use recurlocal.Planner.Concurrency.{share_requests}
use recurlocal.Base.{
  All, arith, true, none, ltb, ℕ, ◌+◌, ◌≤◌, ◌≡◌, ◌⊎◌, refl, false, List, [], ◌∷◌, length,
}
use recurlocal.Base.Sort.{sort}
use recurlocal.Base.Int.{pos, minus_one}
use recurlocal.Double.{Fixed, fixed_double}
use recurlocal.Tensor.Examples.{state, cache}
use recurlocal.Tensor.{TensorDesc}
use recurlocal.Graph.{KernelEvent, TransitGraph, no_graph, bytes}
use recurlocal.Plan.{TransitPlan, no_plan, linear}
use recurlocal.Plan.Examples.{window, clear_window}
use recurlocal.Device.{DeviceProfile, RuntimeState, decode, max_window_bytes}
use recurlocal.Planner.{TransitPlannerConfig, density, per_consumer, densest, fixed_distance}
use recurlocal.Planner.Candidates.{Candidate, resolve_budget}
use recurlocal.Planner.Admit
use recurlocal.Planner.Admit.Decided.{DecidesEach, ForBudget, ForBudgetOrHits}
use recurlocal.Planner.Admit.Budget.{
  Splits, IsGreedy, AllWhole, admit_ordered-budget, admit_quota-budget,
}
use recurlocal.Plan.Validate.{
  validate, first_problem, check_action, check_region, check_cleared, check_installed, check_joined,
}
use recurlocal.Planner.Emit.{emit_persist, emit_prefetch}
use recurlocal.Planner.Emit.Accepted.{emit_persist-validate}
use recurlocal.Planner.Emit.Prefetches.{emit_prefetch-validate}
use recurlocal.Planner.Bounds.{resolve_budget-bound}
use recurlocal.Planner.Windows.{cap_windows, windows_at}
use recurlocal.Planner.Windows.Cap.{cap_windows-bound}

abbrev pub config : TransitPlannerConfig Fixed
config = record {
  persist_roles = 6;
  prefetch_roles = 0;
  stream_roles = 0;
  admission = density;
  reuse_metric = bytes;
  budget_fraction = 10_000;
  hit_ratio = 10_000;
  min_hit_ratio = 500;
  role_floor_share = 5000;
  max_reuse_distance_budgets = 0;
  window_binding = per_consumer;
  max_windows_per_kernel = pos 1;
  window_preference = densest;
  prefetch_enabled = false;
  prefetch_timing = fixed_distance;
  prefetch_distance = pos 1;
  prefetch_min_bytes = 0;
  prefetch_join_at_end = false;
  stream_min_bytes = 0;
  cost_model = linear;
  residency_beta = 5000;
  reservation_cost = 10_000;
  stream_relief = 0;
  cache_line_bytes = 128;
  max_actions = 100;
}

abbrev pub device : DeviceProfile
device = record {
  device = pos 0;
  l2_bytes = 1000;
  persisting_l2_max_bytes = 350;
  access_policy_max_window_bytes = 500;
  sm_count = pos 1;
  major = pos 9;
  minor = pos 0;
  global_memory_bytes = 0;
  peak_bandwidth_bytes_per_s = 0;
}

abbrev pub runtime : RuntimeState
runtime = record {
  phase = decode;
  active_requests = pos 1;
  committed_budget_bytes = 50;
  graph_capture_active = false;
  granted_budget_bytes = 0;
}

abbrev candidate : ℕ → TensorDesc → Candidate
candidate tensor desc = record {
  tensor = tensor;
  role = desc.role;
  desc = desc;
  bytes = desc.bytes;
  saved_bytes = desc.bytes;
  distance = 1;
  reuse_bytes = 600;
  first_consumer = 2;
  last_consumer = 2;
  consumers = 2 ∷ [];
  request_id = minus_one;
}

abbrev candidates : List Candidate
candidates = candidate 2 state ∷ candidate 3 cache ∷ []

-- The first is granted whole, the second in part, and the budget is spent.
filled_in_part :
    (Admit.admit_ordered ⦃d = fixed_double⦄ config Admit.by_urgency candidates 300 []).grants
    ≡ record { index = 0; bytes = 100; hit_ratio = 10_000 }
      ∷ record { index = 1; bytes = 200; hit_ratio = 10_000 }
      ∷ []
unfolding Admit.admit_ordered Admit.offer_ordered sort
filled_in_part = refl

admit_ordered-budget_example :
    let s = Admit.admit_ordered ⦃d = fixed_double⦄ config Admit.by_urgency candidates 300 [] in
    Splits candidates 300 s × IsGreedy candidates s × DecidesEach ForBudgetOrHits candidates [] s
admit_ordered-budget_example =
    admit_ordered-budget ⦃d = fixed_double⦄ config Admit.by_urgency candidates 300 []

admit_quota-budget_example :
    let s = Admit.admit_quota ⦃d = fixed_double⦄ config candidates 300 [] in
    Splits candidates 300 s × AllWhole candidates s × DecidesEach ForBudget candidates [] s
admit_quota-budget_example = admit_quota-budget ⦃d = fixed_double⦄ config candidates 300 []

resolve_budget-bound_example :
    let budget = resolve_budget ⦃d = fixed_double⦄ config device runtime in
    (budget ≡ 0)
    ⊎ ((budget + runtime.committed_budget_bytes ≤ max_window_bytes device)
        × ((runtime.granted_budget_bytes ≡ 0)
            ⊎ (budget + runtime.committed_budget_bytes ≤ runtime.granted_budget_bytes)))
resolve_budget-bound_example = resolve_budget-bound ⦃d = fixed_double⦄ config device runtime

-- Two windows before kernel 2, for two tensors.
abbrev crowded : TransitPlan Fixed
crowded = record no_plan {
  actions =
      window
      ∷ record window { tensor = 3; bytes = 300 }
      ∷ clear_window
      ∷ record clear_window { tensor = 3 }
      ∷ [];
}

cap_windows-bound_example :
    length (windows_at 2 (cap_windows (λ l r. ltb r.bytes l.bytes) 1 crowded).actions) ≤ 1
cap_windows-bound_example = cap_windows-bound (λ l r. ltb r.bytes l.bytes) 1 crowded 2

-- The window of the state is added to a plan that has one for the cache.
abbrev started : TransitPlan Fixed
started = record no_plan { actions = window ∷ clear_window ∷ [] }

started_accepted : validate ⦃d = fixed_double⦄ started.actions ≡ none
unfolding validate first_problem check_action check_region check_cleared check_installed
    check_joined
started_accepted = refl

emit_persist-validate_example :
    validate ⦃d = fixed_double⦄
      (emit_persist ⦃d = fixed_double⦄ (candidate 3 cache) 200 10_000 false started).actions
    ≡ none
emit_persist-validate_example =
    emit_persist-validate ⦃d = fixed_double⦄ (candidate 3 cache) 200 10_000 false started
      (omega arith) refl refl (omega arith, (omega arith, (omega arith, tt))) started_accepted

-- A fetch of the cache for the second of two kernels, with every role allowed.
abbrev fetching : TransitPlannerConfig Fixed
fetching = record config { prefetch_roles = 511; prefetch_enabled = true }

abbrev kernel : ℕ → KernelEvent
kernel id = record {
  id = id;
  order = id;
  stream_id = pos 0;
  estimated_start_ns = 0;
  estimated_duration_ns = 0;
  label = 0;
}

abbrev two_kernels : TransitGraph
two_kernels = record no_graph { kernels = kernel 1 ∷ kernel 2 ∷ [] }

emit_prefetch-validate_example :
    validate ⦃d = fixed_double⦄
      (emit_prefetch ⦃d = fixed_double⦄ fetching device two_kernels candidates started).actions
    ≡ none
emit_prefetch-validate_example =
    emit_prefetch-validate ⦃d = fixed_double⦄ fetching device two_kernels candidates started
      (omega arith, (omega arith, tt))
      (
        record { tensor = omega arith; some_bytes = omega arith; kernels = (omega arith, tt) },
        (
          record { tensor = omega arith; some_bytes = omega arith; kernels = (omega arith, tt) },
          tt,
        ),
      )
      started_accepted

two-IsPlannable : All IsPlannable candidates
two-IsPlannable = (
  record {
    fetchable = record {
      tensor = omega arith;
      some_bytes = omega arith;
      kernels = (omega arith, tt);
    };
    first = omega arith;
    last = omega arith;
  },
  (
    record {
      fetchable = record {
        tensor = omega arith;
        some_bytes = omega arith;
        kernels = (omega arith, tt);
      };
      first = omega arith;
      last = omega arith;
    },
    tt,
  ),
)

greedy_fill-validate_example :
    validate ⦃d = fixed_double⦄
      (emit_prefetch ⦃d = fixed_double⦄ fetching device two_kernels
        (sort (scores_above Fixed ⦃d = fixed_double⦄) candidates)
        (greedy_fill ⦃d = fixed_double⦄ fetching
          (sort (scores_above Fixed ⦃d = fixed_double⦄) candidates)
          (record { plan = no_plan; declined = []; remaining = 300 })).plan).actions
    ≡ none
greedy_fill-validate_example =
    greedy_fill-validate ⦃d = fixed_double⦄ fetching device two_kernels candidates 300 refl refl
      (omega arith, (omega arith, tt)) two-IsPlannable

share_requests-validate_example :
    let s =
      share_requests ⦃d = fixed_double⦄ fetching
        (minus_one ∷ [])
        1
        300
        candidates
        (record { plan = no_plan; emitted = []; declined = []; remaining = 0 }) in
    validate ⦃d = fixed_double⦄
      (emit_prefetch ⦃d = fixed_double⦄ fetching device two_kernels s.emitted s.plan).actions
    ≡ none
share_requests-validate_example =
    share_requests-validate ⦃d = fixed_double⦄ fetching device two_kernels candidates
      (minus_one ∷ []) 1 300 refl refl (omega arith, (omega arith, tt)) two-IsPlannable
