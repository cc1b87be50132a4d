-- ===== src/Planner/Bounds.antt =====
-- The limits of include/tensortransit/device.h that bound the budget of planners/common.cpp.
use recurlocal.Base.{◌+◌, ◌≤◌, ◌≡◌, ◌⊎◌, arith}
use recurlocal.Double.{Double}
use recurlocal.Device.{DeviceProfile, RuntimeState, max_window_bytes}
use recurlocal.Planner.{TransitPlannerConfig}
use recurlocal.Planner.Candidates.{resolve_budget}

-- `DeviceProfile::max_window_bytes`: no limit that the device reports (by a figure other
-- than 0) is exceeded.
pub max_window_bytes-bound :
    (device : DeviceProfile)
    → let limit = max_window_bytes device in
      ((device.l2_bytes ≡ 0) ⊎ (limit ≤ device.l2_bytes))
      × ((device.persisting_l2_max_bytes ≡ 0) ⊎ (limit ≤ device.persisting_l2_max_bytes))
      × ((device.access_policy_max_window_bytes ≡ 0)
          ⊎ (limit ≤ device.access_policy_max_window_bytes))
unfolding max_window_bytes
max_window_bytes-bound device = (ground arith, ground arith, ground arith)

-- `resolve_budget`, whatever the `double` arithmetic: the budget is 0, or together with what is
-- committed it exceeds neither the largest window nor a budget (other than 0) that the executor was granted.
pub resolve_budget-bound :
    {W : Type 0} ⦃d : Double W⦄ (c : TransitPlannerConfig W) (device : DeviceProfile)
    (runtime : RuntimeState)
    → let budget = resolve_budget c device runtime in
      (budget ≡ 0)
      ⊎ ((budget + runtime.committed_budget_bytes ≤ max_window_bytes device)
          × ((runtime.granted_budget_bytes ≡ 0)
              ⊎ (budget + runtime.committed_budget_bytes ≤ runtime.granted_budget_bytes)))
unfolding resolve_budget
resolve_budget-bound c device runtime = ground arith
