-- ===== src/Device.antt =====
-- include/tensortransit/device.h and src/device.cpp: device limits and the runtime's state.
use recurlocal.Base.{ℕ, Bool, not, ◌==◌, min, if◌then◌else◌}
use recurlocal.Base.Int.{ℤ}

pub record DeviceProfile : Type 0 where
  pub device : ℤ
  pub l2_bytes : ℕ
  pub persisting_l2_max_bytes : ℕ
  pub access_policy_max_window_bytes : ℕ
  pub sm_count : ℤ
  pub major : ℤ
  pub minor : ℤ
  pub global_memory_bytes : ℕ
  pub peak_bandwidth_bytes_per_s : ℕ

abbrev pub supports_persisting_l2 : DeviceProfile → Bool
supports_persisting_l2 d = not (d.persisting_l2_max_bytes == 0)

-- The clamp of one reported limit by another, where 0 means "not reported".
abbrev pub clamp_reported : ℕ → ℕ → ℕ
clamp_reported limit bound = if bound == 0 then limit else min limit bound

unfoldable pub max_window_bytes : DeviceProfile → ℕ
max_window_bytes d =
    let reported = d.access_policy_max_window_bytes in
    let limit = if reported == 0 then d.persisting_l2_max_bytes else reported in
    clamp_reported (clamp_reported limit d.persisting_l2_max_bytes) d.l2_bytes

pub data RuntimePhase : Type 0 where
  unknown prefill decode speculative_draft speculative_verify : RuntimePhase

abbrev pub phase_value : RuntimePhase → ℕ
phase_value unknown = 0
phase_value prefill = 1
phase_value decode = 2
phase_value speculative_draft = 3
phase_value speculative_verify = 4

pub record RuntimeState : Type 0 where
  pub phase : RuntimePhase
  pub active_requests : ℤ
  pub committed_budget_bytes : ℕ
  pub graph_capture_active : Bool
  pub granted_budget_bytes : ℕ
