-- ===== src/Planner/Candidates.antt =====
-- `detail::build_candidates` and `detail::resolve_budget` of planners/common.cpp.
use recurlocal.Base.{
  ℕ, ◌-◌, not, ◌&&◌, ◌==◌, leb, List, [], ◌∷◌, ◌++◌, Option, none, some, if◌then◌else◌, min,
}
use recurlocal.Base.Int.{ℤ}
use recurlocal.Double.{Double, of_nat, to_nat, nought, unit}
use recurlocal.Tensor.{TensorRole, TensorDesc, has_read_traffic}
use recurlocal.Registry.{Registry, find}
use recurlocal.Graph.{
  ReuseMetric, TransitGraph, TransitEdge, TensorUse, TensorProfile, has_reuse, distance,
  no_next_use,
}
use recurlocal.Plan.{TransitDecline, DeclineReason, role_excluded, no_reuse}
use recurlocal.Device.{DeviceProfile, RuntimeState, supports_persisting_l2, max_window_bytes}
use recurlocal.Planner.{TransitPlannerConfig}
use recurlocal.Planner.Mask.{RoleMask}
use recurlocal.Planner.Mask

pub record Candidate : Type 0 where
  pub tensor : ℕ
  pub role : TensorRole
  pub desc : TensorDesc
  pub bytes : ℕ
  pub saved_bytes : ℕ
  pub distance : ℕ
  pub reuse_bytes : ℕ
  pub first_consumer : ℕ
  pub last_consumer : ℕ
  pub consumers : List ℕ
  pub request_id : ℤ

-- The nearest reuse of the tensor in the metric.
pub nearest_from : ReuseMetric → ℕ → ℕ → List TransitEdge → ℕ
nearest_from metric tensor nearest [] = nearest
nearest_from metric tensor nearest (e ∷ es) =
    nearest_from metric tensor
      (if e.tensor == tensor then min nearest (distance e metric) else nearest) es

-- The kernels that read the tensor, in order.
pub consumers_of : ℕ → List TensorUse → List ℕ
consumers_of tensor [] = []
consumers_of tensor (u ∷ us) =
    if u.tensor == tensor && has_read_traffic u.access
    then u.kernel ∷ consumers_of tensor us
    else consumers_of tensor us

abbrev pub last_or : ℕ → List ℕ → ℕ
last_or k [] = k
last_or k (j ∷ js) = last_or j js

abbrev pub declined_as : TensorProfile → DeclineReason → ℕ → TransitDecline
declined_as p reason forgone = record {
  tensor = p.tensor;
  role = p.role;
  reason = reason;
  bytes = p.bytes;
  forgone_saved_bytes = forgone;
}

-- What becomes of one profile.
pub data Verdict : Type 0 where
  skipped : Verdict
  declines : TransitDecline → Verdict
  admits : Candidate → Verdict

pub candidate_from : ReuseMetric → TransitGraph → TensorProfile → TensorDesc → List ℕ → Verdict
candidate_from metric g p desc [] = declines (declined_as p no_reuse 0)
candidate_from metric g p desc (k ∷ ks) =
    let nearest = nearest_from metric p.tensor no_next_use g.edges in
    admits (record {
      tensor = p.tensor;
      role = p.role;
      desc = desc;
      bytes = p.bytes;
      saved_bytes = p.reused_bytes;
      distance = if nearest == no_next_use then 0 else nearest;
      reuse_bytes = p.min_reuse_bytes;
      first_consumer = k;
      last_consumer = last_or k ks;
      consumers = k ∷ ks;
      request_id = p.request_id;
    })

pub judge : ReuseMetric → RoleMask → TransitGraph → TensorProfile → Option TensorDesc → Verdict
judge metric roles g p none = skipped
judge metric roles g p (some desc) =
    if not (Mask.has roles p.role)
    then (if has_reuse p then declines (declined_as p role_excluded p.reused_bytes) else skipped)
    else if not (has_reuse p)
    then declines (declined_as p no_reuse 0)
    else candidate_from metric g p desc (consumers_of p.tensor g.uses)

abbrev pub Screened : Type 0
Screened = List Candidate × List TransitDecline

abbrev pub take_verdict : Verdict → Screened → Screened
take_verdict skipped s = s
take_verdict (declines d) (cs, ds) = (cs, ds ++ (d ∷ []))
take_verdict (admits c) (cs, ds) = (cs ++ (c ∷ []), ds)

pub judge_all :
    ReuseMetric → RoleMask → Registry → TransitGraph → List TensorProfile → Screened → Screened
judge_all metric roles r g [] s = s
judge_all metric roles r g (p ∷ ps) s =
    judge_all metric roles r g ps (take_verdict (judge metric roles g p (find r p.tensor)) s)

pub build_candidates : ReuseMetric → RoleMask → Registry → TransitGraph → Screened
build_candidates metric roles r g = judge_all metric roles r g g.profiles ([], [])

-- `resolve_budget`: what the executor holds, or else the configured share of the capacity, cut off at
-- the largest window and less what is committed already.
unfoldable pub resolve_budget :
    {W : Type 0} ⦃d : Double W⦄ → TransitPlannerConfig W → DeviceProfile → RuntimeState → ℕ
resolve_budget ⦃d⦄ c device runtime =
    let capacity = device.persisting_l2_max_bytes in
    let asked =
      if d.lt c.budget_fraction unit
      then to_nat (d.mul (of_nat capacity) c.budget_fraction)
      else capacity in
    let held = if runtime.granted_budget_bytes == 0 then asked else runtime.granted_budget_bytes in
    let budget = min held (max_window_bytes device) in
    if not (supports_persisting_l2 device)
    then 0
    else if d.le c.budget_fraction nought
    then 0
    else if leb budget runtime.committed_budget_bytes
    then 0
    else budget - runtime.committed_budget_bytes
