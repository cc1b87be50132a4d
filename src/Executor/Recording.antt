-- ===== src/Executor/Recording.antt =====
-- `RecordingExecutor` of include/tensortransit/executor.h and src/executor.cpp.
use recurlocal.Base.{
  ℕ, Bool, true, false, ◌==◌, Option, none, some, List, [], ◌∷◌, ◌++◌, if◌then◌else◌, get_elem?,
  add64,
}
use recurlocal.Base.Sort.{contains}
use recurlocal.Plan.{
  TransitPlan, TransitAction, TransitActionKind, normal, persist, stream, prefetch, rotate_window,
  clear_policy, record_event, wait_event,
}
use recurlocal.Plan.Index.{before, after}
use recurlocal.Executor.{ExecutorStats, no_stats, ITransitExecutor}

-- `RecordingExecutor::Record`.
pub record Record (W : Type 0) : Type 0 where
  pub kind : TransitActionKind
  pub tensor : ℕ
  pub kernel : ℕ
  pub before : Bool
  pub bytes : ℕ
  pub hit_ratio : W

pub record RecordingExecutor (W : Type 0) : Type 0 where
  pub plan : Option (TransitPlan W)
  pub records : List (Record W)
  pub stats : ExecutorStats

-- The counters of one kind of action.
abbrev pub tally : TransitActionKind → ℕ → ExecutorStats → ExecutorStats
tally persist bytes s = record s {
  persist_applied = add64 s.persist_applied 1;
  persist_bytes = add64 s.persist_bytes bytes;
}
tally stream bytes s = record s { stream_applied = add64 s.stream_applied 1 }
tally prefetch bytes s = record s {
  prefetch_applied = add64 s.prefetch_applied 1;
  prefetch_bytes = add64 s.prefetch_bytes bytes;
}
tally clear_policy bytes s = record s { clear_applied = add64 s.clear_applied 1 }
tally record_event bytes s = record s { events_recorded = add64 s.events_recorded 1 }
tally wait_event bytes s = record s { events_waited = add64 s.events_waited 1 }
tally normal bytes s = s
tally rotate_window bytes s = s

-- What fired, in the four sums that `policies_balanced` compares.
pub record Fired : Type 0 where
  pub persisted : List ℕ
  pub cleared : List ℕ
  pub forks : ℕ
  pub joins : ℕ

unfoldable pub all_cleared : List ℕ → List ℕ → Bool
all_cleared [] cleared = true
all_cleared (t ∷ ts) cleared = if contains t cleared then all_cleared ts cleared else false

module _ {W : Type 0} where
  -- A recording executor as it is constructed.
  abbrev pub fresh : RecordingExecutor W
  fresh = record { plan = none; records = []; stats = no_stats }

  abbrev pub record_of : ℕ → Bool → TransitAction W → Record W
  record_of kernel is_before a = record {
    kind = a.kind;
    tensor = a.tensor;
    kernel = kernel;
    before = is_before;
    bytes = a.bytes;
    hit_ratio = a.hit_ratio;
  }

  -- The actions at positions of the plan; positions of a finalized plan are in range.
  unfoldable pub actions_at : List (TransitAction W) → List ℕ → List (TransitAction W)
  actions_at actions [] = []
  actions_at actions (i ∷ is) = elim (get_elem? actions i) [
    | none ↦ actions_at actions is
    | some a ↦ a ∷ actions_at actions is
  ]

  abbrev pub fire : ℕ → Bool → TransitAction W → RecordingExecutor W → RecordingExecutor W
  fire kernel is_before a e = record e {
    records = e.records ++ (record_of kernel is_before a ∷ []);
    stats =
        tally a.kind a.bytes (record e.stats { actions_applied = add64 e.stats.actions_applied 1 });
  }

  -- The loop of `dispatch`.
  unfoldable pub fire_all :
      ℕ → Bool → List (TransitAction W) → RecordingExecutor W → RecordingExecutor W
  fire_all kernel is_before [] e = e
  fire_all kernel is_before (a ∷ rest) e =
      fire_all kernel is_before rest (fire kernel is_before a e)

  abbrev pub spend : ℕ → RecordingExecutor W → RecordingExecutor W
  spend elapsed e = record e { stats = record e.stats { host_ns = add64 e.stats.host_ns elapsed } }

  abbrev pub dispatch :
      ℕ → ℕ → Bool → List (TransitAction W) → RecordingExecutor W → RecordingExecutor W
  dispatch elapsed kernel is_before actions e = spend elapsed (fire_all kernel is_before actions e)

  -- What a hook does with the plan's lookup of its kernel.
  abbrev pub dispatch_found :
      ℕ → ℕ → Bool → TransitPlan W → Option (List ℕ) → RecordingExecutor W → RecordingExecutor W
  dispatch_found elapsed kernel is_before p none e = e
  dispatch_found elapsed kernel is_before p (some is) e =
      dispatch elapsed kernel is_before (actions_at p.actions is) e

  abbrev pub count_kernel : RecordingExecutor W → RecordingExecutor W
  count_kernel e = record e { stats = record e.stats { kernels = add64 e.stats.kernels 1 } }

  -- The hooks, for the plan that the executor holds.
  abbrev pub before_with :
      Option (TransitPlan W) → ℕ → ℕ → RecordingExecutor W → RecordingExecutor W
  before_with none elapsed kernel e = count_kernel e
  before_with (some p) elapsed kernel e =
      dispatch_found elapsed kernel true p (before p kernel) (count_kernel e)

  abbrev pub after_with : Option (TransitPlan W) → ℕ → ℕ → RecordingExecutor W → RecordingExecutor W
  after_with none elapsed kernel e = e
  after_with (some p) elapsed kernel e = dispatch_found elapsed kernel false p (after p kernel) e

  unfoldable pub before_kernel : ℕ → ℕ → RecordingExecutor W → RecordingExecutor W
  before_kernel elapsed kernel e = before_with e.plan elapsed kernel e

  unfoldable pub after_kernel : ℕ → ℕ → RecordingExecutor W → RecordingExecutor W
  after_kernel elapsed kernel e = after_with e.plan elapsed kernel e

  abbrev pub begin_step : RecordingExecutor W → RecordingExecutor W
  begin_step e = record e { stats = record e.stats { steps = add64 e.stats.steps 1 } }

  abbrev pub clear_records : RecordingExecutor W → RecordingExecutor W
  clear_records e = record e { records = [] }

  abbrev pub note : Record W → Fired → Fired
  note r f =
      let held =
        if contains r.tensor f.persisted then f.persisted else f.persisted ++ (r.tensor ∷ []) in
      elim r.kind [
        | persist ↦ record f { persisted = held }
        | stream ↦ record f { persisted = held }
        | clear_policy ↦ record f { cleared = f.cleared ++ (r.tensor ∷ []) }
        | record_event ↦ record f { forks = add64 f.forks 1 }
        | wait_event ↦ record f { joins = add64 f.joins 1 }
        | normal ↦ f
        | prefetch ↦ f
        | rotate_window ↦ f
      ]

  unfoldable pub note_all : List (Record W) → Fired → Fired
  note_all [] f = f
  note_all (r ∷ rs) f = note_all rs (note r f)

  unfoldable pub policies_balanced : RecordingExecutor W → Bool
  policies_balanced e =
      let f = note_all e.records (record { persisted = []; cleared = []; forks = 0; joins = 0 }) in
      if f.forks == f.joins then all_cleared f.persisted f.cleared else false

instance abbrev pub recording : {W : Type 0} → ITransitExecutor W (RecordingExecutor W)
recording = record {
  set_plan = λ p e. record e { plan = p };
  plan = λ e. e.plan;
  begin_step = begin_step;
  before_kernel = before_kernel;
  after_kernel = after_kernel;
  end_step = λ e. e;
  stats = λ e. e.stats;
  reset_stats = λ e. record e { stats = no_stats };
  name = "recording";
}
