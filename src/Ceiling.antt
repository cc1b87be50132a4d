-- ===== src/Ceiling.antt =====
-- include/tensortransit/ceiling.h and src/ceiling.cpp. `std::sort` leaves the order of equal densities
-- open; here they stay in the order of the profiles.
pub mod Resident
pub mod Examples
use recurlocal.Base.{
  ℕ, ◌+◌, ◌-◌, Bool, true, false, not, ◌&&◌, ◌||◌, ◌==◌, leb, List, [], ◌∷◌, ◌++◌, if◌then◌else◌,
  min, add64,
}
use recurlocal.Base.Sort.{sort}
use recurlocal.Double.{Double, of_nat, to_nat, nought, unit}
use recurlocal.Tensor.{TensorRole}
use recurlocal.Graph.{TransitGraph, TensorProfile, has_reuse}
use recurlocal.Device.{DeviceProfile, max_window_bytes}
use recurlocal.Planner.Mask.{RoleMask}
use recurlocal.Planner.Mask

pub record CeilingReport : Type 0 where
  pub step_traffic_bytes : ℕ
  pub removable_bytes : ℕ
  pub required_resident_bytes : ℕ
  pub budget_bytes : ℕ
  pub bounded_saved_bytes : ℕ
  pub bounded_resident_bytes : ℕ
  pub unbounded_saturated : Bool

pub record Item (W : Type 0) : Type 0 where
  pub bytes : ℕ
  pub saved : ℕ
  pub density : W

abbrev pub counts : RoleMask → TensorProfile → Bool
counts roles p = Mask.has roles p.role && has_reuse p && not (p.bytes == 0)

module _ {W : Type 0} ⦃d : Double W⦄ where
  abbrev ratio_of : ℕ → ℕ → W
  ratio_of a b = d.div (of_nat a) (of_nat b)

  -- `ratio_from_share`.
  pub ratio_from_share : W → W
  ratio_from_share share =
      if d.le share nought
      then unit
      else if d.le unit share
      then nought
      else d.div unit (d.sub unit share)

  pub share_of : ℕ → ℕ → W
  share_of part step =
      let share = ratio_of part step in
      if step == 0 then nought else if d.lt unit share then unit else share

  pub removable_share : CeilingReport → W
  removable_share r = share_of r.removable_bytes r.step_traffic_bytes

  pub bounded_share : CeilingReport → W
  bounded_share r = share_of r.bounded_saved_bytes r.step_traffic_bytes

  pub removable_ratio : CeilingReport → W
  removable_ratio r = ratio_from_share (removable_share r)

  pub bounded_ratio : CeilingReport → W
  bounded_ratio r = ratio_from_share (bounded_share r)

  pub resident_fraction : CeilingReport → W
  resident_fraction r =
      if r.required_resident_bytes == 0
      then nought
      else if leb r.required_resident_bytes r.budget_bytes
      then unit
      else ratio_of r.budget_bytes r.required_resident_bytes

  -- The items, with the sums of what they save and of what they hold.
  unfoldable pub items_of :
      RoleMask → List TensorProfile → ℕ → ℕ → List (Item W) → (ℕ × ℕ) × List (Item W)
  items_of roles [] removable required items = ((removable, required), items)
  items_of roles (p ∷ ps) removable required items =
      let density = ratio_of p.reused_bytes p.bytes in
      let item : Item W = record { bytes = p.bytes; saved = p.reused_bytes; density = density } in
      let rest = items_of roles ps removable required items in
      let counted =
        items_of roles ps (add64 removable p.reused_bytes) (add64 required p.bytes)
          (items ++ (item ∷ [])) in
      if counts roles p then counted else rest

  abbrev partial_saving : Item W → ℕ → ℕ
  partial_saving i granted =
      to_nat (d.div (d.mul (of_nat i.saved) (of_nat granted)) (of_nat i.bytes))

  -- The greedy fill: what is saved and what is resident.
  unfoldable pub fill : List (Item W) → ℕ → ℕ → ℕ → ℕ × ℕ
  fill [] remaining saved resident = (saved, resident)
  fill (i ∷ is) remaining saved resident =
      let granted = min remaining i.bytes in
      let rest =
        fill is (remaining - granted) (add64 saved (partial_saving i granted))
          (add64 resident granted) in
      if remaining == 0 then (saved, resident) else rest

-- `compute_ceiling`, with the saturation share 0.99.
unfoldable pub compute_ceiling :
    (W : Type 0) ⦃d : Double W⦄ → TransitGraph → DeviceProfile → RoleMask → CeilingReport
compute_ceiling W ⦃d⦄ g device roles =
    let budget = min device.persisting_l2_max_bytes (max_window_bytes device) in
    let ((removable, required), items) = items_of {W = W} roles g.profiles 0 0 [] in
    let (saved, resident) = fill (sort (λ a b. d.lt b.density a.density) items) budget 0 0 in
    let share : W = share_of removable g.step_traffic in
    record {
      step_traffic_bytes = g.step_traffic;
      removable_bytes = removable;
      required_resident_bytes = required;
      budget_bytes = budget;
      bounded_saved_bytes = saved;
      bounded_resident_bytes = resident;
      unbounded_saturated = not (g.step_traffic == 0) && d.lt (d.literal 99 2) share;
    }
