-- ===== src/Ceiling/Examples.antt =====
-- The ceiling of one decode step, in fixed point.
use recurlocal.Base.{◌≡◌, ◌%◌, min, word_size, arith}
use recurlocal.Double.{Fixed, fixed_double}
use recurlocal.Graph.Build.{build}
use recurlocal.Graph.Examples.{registry, step_graph}
use recurlocal.Device.{max_window_bytes}
use recurlocal.Planner.Examples.{device}
use recurlocal.Ceiling.{compute_ceiling}
use recurlocal.Ceiling.Resident.{counted_bytes, compute_ceiling-resident}

compute_ceiling-resident_example :
    let g = build registry step_graph in
    let r = compute_ceiling Fixed ⦃d = fixed_double⦄ g device 6 in
    let needed = counted_bytes 6 g.profiles in
    (r.budget_bytes ≡ min device.persisting_l2_max_bytes (max_window_bytes device))
    × (r.bounded_resident_bytes ≡ min r.budget_bytes needed)
    × (r.required_resident_bytes % word_size ≡ needed % word_size)
compute_ceiling-resident_example =
    compute_ceiling-resident Fixed ⦃d = fixed_double⦄ (build registry step_graph) device 6
      (omega arith)
