-- ===== src/Executor/Examples.antt =====
-- A step of two kernels on the recording executor.
use recurlocal.Base.{false, true, ◌≡◌, ◌++◌, refl, some, [], ◌∷◌, arith}
use recurlocal.Double.{Fixed}
use recurlocal.Plan.{TransitPlan, no_plan, persist, clear_policy}
use recurlocal.Plan.Index.{finalize}
use recurlocal.Plan.Examples.{actions}
use recurlocal.Executor.Recording.{RecordingExecutor, fresh}
use recurlocal.Executor.Replay.{run_kernels, fired_by, run_kernels-records}

abbrev plan : TransitPlan Fixed
plan = finalize (record no_plan { actions = actions })

abbrev loaded : RecordingExecutor Fixed
loaded = record fresh { plan = some plan }

-- The window of 100 bytes before kernel 2 and its clear after kernel 3.
two_records :
    fired_by actions (2 ∷ 3 ∷ [])
    ≡ record {
      kind = persist;
      tensor = 2;
      kernel = 2;
      before = true;
      bytes = 100;
      hit_ratio = 10_000;
    }
      ∷ record {
        kind = clear_policy;
        tensor = 2;
        kernel = 3;
        before = false;
        bytes = 0;
        hit_ratio = 0;
      }
      ∷ []
unfolding fired_by
two_records = refl

run_kernels-records_example :
    (run_kernels (λ k. 5) (2 ∷ 3 ∷ []) loaded).records ≡ [] ++ fired_by actions (2 ∷ 3 ∷ [])
run_kernels-records_example =
    run_kernels-records (λ k. 5) (2 ∷ 3 ∷ []) (record no_plan { actions = actions }) loaded
      (omega arith, (omega arith, tt)) refl
