-- ===== src/Ceiling/Resident.antt =====
-- What the greedy fill of src/ceiling.cpp holds.
use recurlocal.Base.{
  ◌==◌, if◌then◌else◌, ◌-◌, add64, Bool, Bool, ℕ, ◌+◌, ◌<◌, ◌≡◌, ◌%◌, refl, List, [], ◌∷◌, ◌++◌,
  Bool-cases, inl, inr, min, arith, word_size, ◌∙◌,
}
use recurlocal.Base.Sort.{sort, insert}
use recurlocal.Double.{Double}
use recurlocal.Graph.{TransitGraph, TensorProfile}
use recurlocal.Device.{DeviceProfile, max_window_bytes}
use recurlocal.Planner.Mask.{RoleMask}
use recurlocal.Ceiling

module _ {W : Type 0} where
  abbrev pub total_bytes : List (Ceiling.Item W) → ℕ
  total_bytes [] = 0
  total_bytes (i ∷ is) = i.bytes + total_bytes is

  total_bytes-append :
      (is js : List (Ceiling.Item W)) → total_bytes (is ++ js) ≡ total_bytes is + total_bytes js
  total_bytes-append [] js = omega arith
  total_bytes-append (i ∷ is) js = omega (arith, total_bytes-append is js)

  total_bytes-insert :
      (less : Ceiling.Item W → Ceiling.Item W → Bool) (i : Ceiling.Item W)
      (is : List (Ceiling.Item W))
      → total_bytes (insert less i is) ≡ i.bytes + total_bytes is
  unfolding insert
  total_bytes-insert less i [] = refl
  total_bytes-insert less i (j ∷ js) = ground (arith, total_bytes-insert less i js)

  total_bytes-sort :
      (less : Ceiling.Item W → Ceiling.Item W → Bool) (is : List (Ceiling.Item W))
      → total_bytes (sort less is) ≡ total_bytes is
  unfolding sort
  total_bytes-sort less [] = refl
  total_bytes-sort less (i ∷ is) =
      omega (arith, total_bytes-insert less i (sort less is), total_bytes-sort less is)

-- The bytes of the profiles that a ceiling counts.
abbrev pub counted_bytes : RoleMask → List TensorProfile → ℕ
counted_bytes roles [] = 0
counted_bytes roles (p ∷ ps) =
    (if Ceiling.counts roles p then p.bytes else 0) + counted_bytes roles ps

module _ {W : Type 0} ⦃d : Double W⦄ where
  fill-resident :
      (items : List (Ceiling.Item W)) (remaining saved resident : ℕ)
      → resident + remaining < word_size
      → (Ceiling.fill items remaining saved resident).1
        ≡ resident + min remaining (total_bytes items)
  unfolding Ceiling.fill
  fill-resident [] remaining saved resident h = omega arith
  fill-resident (i ∷ is) remaining saved resident h =
      let granted = min remaining i.bytes in
      elim (Bool-cases (remaining == 0)) [
        | inl z ↦ rw z (ground (arith, z))
        | inr more ↦ rw more (
            fill-resident is (remaining - granted) _ (add64 resident granted) (omega arith)
            ∙ omega arith)
      ]

  items_of-sums :
      (roles : RoleMask) (ps : List TensorProfile) (removable required : ℕ)
      (items : List (Ceiling.Item W))
      → (total_bytes ((Ceiling.items_of roles ps removable required items).1)
          ≡ total_bytes items + counted_bytes roles ps)
        × ((Ceiling.items_of roles ps removable required items).0.1 % word_size
            ≡ (required + counted_bytes roles ps) % word_size)
  unfolding Ceiling.items_of
  items_of-sums roles [] removable required items = (omega arith, omega arith)
  items_of-sums roles (p ∷ ps) removable required items =
      elim (Bool-cases (Ceiling.counts roles p)) [
        | inr out ↦
            let (total, required_sum) = items_of-sums roles ps removable required items in
            rw out (omega (arith, total), omega (arith, required_sum))
        | inl kept ↦
            let item : Ceiling.Item W = record {
              bytes = p.bytes;
              saved = p.reused_bytes;
              density = d.div (d.of_nat p.reused_bytes) (d.of_nat p.bytes);
            } in
            let (total, required_sum) =
              items_of-sums roles ps (add64 removable p.reused_bytes) (add64 required p.bytes)
                (items ++ (item ∷ [])) in
            rw kept (
              omega (arith, total, total_bytes-append items (item ∷ [])),
              omega (arith, required_sum),
            )
      ]

-- `compute_ceiling`, with a 64-bit persisting capacity and whatever the `double` arithmetic: the budget is the lesser of the persisting
-- capacity and the largest window; the greedy fill holds the whole budget, or else all that the
-- profiles of the mask need; and what they need is reported modulo `2 ^ 64`.
pub compute_ceiling-resident :
    (W : Type 0) ⦃d : Double W⦄ (g : TransitGraph) (device : DeviceProfile) (roles : RoleMask)
    → device.persisting_l2_max_bytes < word_size
    → let r = Ceiling.compute_ceiling W g device roles in
      let needed = counted_bytes roles g.profiles in
      (r.budget_bytes ≡ min device.persisting_l2_max_bytes (max_window_bytes device))
      × (r.bounded_resident_bytes ≡ min r.budget_bytes needed)
      × (r.required_resident_bytes % word_size ≡ needed % word_size)
unfolding Ceiling.compute_ceiling
compute_ceiling-resident W ⦃d⦄ g device roles small =
    let (total, required) = items_of-sums {W = W} roles g.profiles 0 0 [] in
    let items = (Ceiling.items_of {W = W} roles g.profiles 0 0 []).1 in
    let less : Ceiling.Item W → Ceiling.Item W → Bool = λ a b. d.lt b.density a.density in
    let budget = min device.persisting_l2_max_bytes (max_window_bytes device) in
    (
      refl,
      omega (
        arith,
        total,
        total_bytes-sort less items,
        fill-resident (sort less items) budget 0 0 (omega arith),
      ),
      omega (arith, required),
    )
