-- ===== src/Recurrent/Layers.antt =====
-- Which layer is touched ahead: the schedule of prefetch distances, and the walk over the recurrent
-- layers of a hybrid stack, in src/recurrent_planner.cpp. Layer indices are small ints.
use recurlocal.Base.{
  ℕ, zero, suc, ◌+◌, ◌-◌, ◌*◌, ◌/◌, ◌%◌, ◌<◌, ◌≡◌, refl, Bool, true, false, not, ◌&&◌, ◌==◌,
  if◌then◌else◌, min, arith, Option, none, some, subst, Bool-cases, inl, inr,
}
use mathlib.Core.Option.{some-injective}
use recurlocal.Base.Int.{ℤ, pos, negsuc, ltℤ, pos_part}
use recurlocal.Recurrent.{
  PrefetchSchedule, uniform, ramp, alternating, sparse, LocalityMode, LocalityPlanner,
}
use recurlocal.Recurrent.Budget.{max_prefetch_distance}

-- The distance of one layer for a base distance, both as the ints they are.
unfoldable pub scheduled_distance : PrefetchSchedule → ℤ → ℤ → ℤ
scheduled_distance schedule base (negsuc i) = base
scheduled_distance schedule (negsuc b) (pos i) = negsuc b
scheduled_distance schedule (pos zero) (pos i) = pos zero
scheduled_distance schedule (pos (suc b)) (pos i) = elim schedule [
  | uniform ↦ pos (suc b)
  | ramp ↦ pos (min (suc b) (1 + i / 8))
  | alternating ↦ if i % 2 == 0 then pos (suc b) else pos 0
  | sparse ↦ if i % 4 == 0 then pos (min max_prefetch_distance (suc b * 2)) else pos 0
]

abbrev pub does_prefetch : LocalityMode → Bool
does_prefetch LocalityMode.baseline = false
does_prefetch LocalityMode.persist = false
does_prefetch LocalityMode.prefetch = true
does_prefetch LocalityMode.combined = true

abbrev pub distance_for_layer : {W : Type 0} → LocalityPlanner W → ℤ → ℤ
distance_for_layer p layer_index =
    if does_prefetch p.config.mode
    then scheduled_distance p.config.prefetch_schedule p.config.prefetch_distance layer_index
    else pos 0

-- `is_recurrent_layer`: every layer but each `interval`-th, and every one without an interval.
abbrev pub is_recurrent_layer : ℤ → ℤ → Bool
is_recurrent_layer (negsuc l) interval = false
is_recurrent_layer (pos l) (negsuc k) = true
is_recurrent_layer (pos l) (pos zero) = true
is_recurrent_layer (pos l) (pos (suc k)) = not ((l + 1) % suc k == 0)

-- The loop from index i: `left` indices are left below the layer count.
unfoldable pub walk_ahead : ℕ → ℕ → ℕ → ℤ → Option ℕ
walk_ahead zero i remaining interval = none
walk_ahead (suc left) i remaining interval =
    let skipped = walk_ahead left (suc i) remaining interval in
    let passed = walk_ahead left (suc i) (remaining - 1) interval in
    if not (is_recurrent_layer (pos i) interval)
    then skipped
    else if remaining - 1 == 0
    then some i
    else passed

-- The first index of the loop. A negative index is no recurrent layer, so the loop starts at 0.
abbrev pub after_layer : ℤ → ℕ
after_layer (pos l) = suc l
after_layer (negsuc l) = 0

-- `none` is -1.
unfoldable pub recurrent_layer_ahead : ℤ → ℤ → ℤ → ℤ → Option ℕ
recurrent_layer_ahead layer distance layer_count interval =
    let start = after_layer layer in
    if ltℤ (pos 0) distance && ltℤ (pos 0) layer_count
    then walk_ahead (pos_part layer_count - start) start (pos_part distance) interval
    else none

-- How many of the n layers from i on are recurrent.
unfoldable pub recurrent_between : ℕ → ℕ → ℤ → ℕ
recurrent_between zero i interval = 0
recurrent_between (suc n) i interval =
    let rest = recurrent_between n (suc i) interval in
    if is_recurrent_layer (pos i) interval then suc rest else rest

walk_ahead-some :
    (left i remaining : ℕ) (interval : ℤ) (j : ℕ)
    → 0 < remaining
    → walk_ahead left i remaining interval ≡ some j
    → (n : ℕ) × (j ≡ i + n)
      × (n < left)
      × (is_recurrent_layer (pos j) interval ≡ true)
      × (recurrent_between n i interval + 1 ≡ remaining)
unfolding walk_ahead recurrent_between
walk_ahead-some zero i remaining interval j h e = cc
walk_ahead-some (suc left) i remaining interval j h e =
    elim (Bool-cases (is_recurrent_layer (pos i) interval)) [
      | inl here ↦ elim (Bool-cases (remaining - 1 == 0)) [
        | inl last ↦
            let at : i ≡ j = some-injective _ _ (ground (arith, here, last, e)) in
            (
              0,
              omega (arith, at),
              omega arith,
              subst (λ k. is_recurrent_layer (pos k) interval ≡ true) at here,
              ground arith,
            )
        | inr more ↦
            let (n, at, inside, recurrent, count) =
              walk_ahead-some left (suc i) (remaining - 1) interval j (ground arith)
                (ground (arith, here, more, e)) in
            (
              suc n,
              omega (arith, at),
              omega (arith, inside),
              recurrent,
              ground (arith, here, count),
            )
      ]
      | inr skip ↦
          let (n, at, inside, recurrent, count) =
            walk_ahead-some left (suc i) remaining interval j h (ground (arith, skip, e)) in
          (suc n, omega (arith, at), omega (arith, inside), recurrent, ground (arith, skip, count))
    ]

walk_ahead-none :
    (left i remaining : ℕ) (interval : ℤ)
    → 0 < remaining
    → walk_ahead left i remaining interval ≡ none
    → recurrent_between left i interval < remaining
unfolding walk_ahead recurrent_between
walk_ahead-none zero i remaining interval h e = h
walk_ahead-none (suc left) i remaining interval h e =
    elim (Bool-cases (is_recurrent_layer (pos i) interval)) [
      | inl here ↦ elim (Bool-cases (remaining - 1 == 0)) [
        | inl last ↦ let bad : some i ≡ none = ground (arith, here, last, e) in cc
        | inr more ↦ ground (
          arith,
          here,
          walk_ahead-none left (suc i) (remaining - 1) interval (ground arith)
              (ground (arith, here, more, e)),
        )
      ]
      | inr skip ↦
          ground (
            arith,
            skip,
            walk_ahead-none left (suc i) remaining interval h (ground (arith, skip, e)),
          )
    ]

nought_sub : (n : ℕ) → 0 ≡ 0 - n
nought_sub n = omega arith

-- The layer that is found d ahead is below the layer count and recurrent, and exactly d - 1 recurrent layers stand between.
pub recurrent_layer_ahead-some :
    (layer : ℤ) (d : ℕ) (layer_count interval : ℤ) (j : ℕ)
    → recurrent_layer_ahead layer (pos d) layer_count interval ≡ some j
    → (n : ℕ) × (j ≡ after_layer layer + n)
      × (j < pos_part layer_count)
      × (is_recurrent_layer (pos j) interval ≡ true)
      × (recurrent_between n (after_layer layer) interval + 1 ≡ d)
unfolding recurrent_layer_ahead
recurrent_layer_ahead-some layer d layer_count interval j e =
    let (n, at, inside, recurrent, count) =
      walk_ahead-some (pos_part layer_count - after_layer layer) (after_layer layer) d interval j
        (ground arith) (ground (arith, e)) in
    (n, at, omega arith, recurrent, count)

-- When nothing is found, fewer than d recurrent layers are left below the layer count, for a positive distance.
pub recurrent_layer_ahead-none :
    (layer : ℤ) (d : ℕ) (layer_count interval : ℤ)
    → 0 < d
    → recurrent_layer_ahead layer (pos d) layer_count interval ≡ none
    → recurrent_between (pos_part layer_count - after_layer layer) (after_layer layer) interval < d
unfolding recurrent_layer_ahead walk_ahead
recurrent_layer_ahead-none layer d (pos (suc c)) interval h e =
    walk_ahead-none (suc c - after_layer layer) (after_layer layer) d interval h (ground (arith, e))
recurrent_layer_ahead-none layer d (pos zero) interval h e =
    walk_ahead-none (0 - after_layer layer) (after_layer layer) d interval h (
      subst (λ n. walk_ahead n (after_layer layer) d interval ≡ none)
        (nought_sub (after_layer layer)) refl)
recurrent_layer_ahead-none layer d (negsuc c) interval h e =
    walk_ahead-none (0 - after_layer layer) (after_layer layer) d interval h (
      subst (λ n. walk_ahead n (after_layer layer) d interval ≡ none)
        (nought_sub (after_layer layer)) refl)
