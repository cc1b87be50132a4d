-- ===== src/Recurrent/Window.antt =====
-- Which state gets the window and how far it reaches, in src/recurrent_planner.cpp.
pub mod Best
use recurlocal.Base.{
  Option-cases, get_elem?, suc, ℕ, ◌+◌, ◌-◌, ◌≤◌, ◌≡◌, refl, Bool, true, false, not, ◌&&◌, ◌==◌,
  ltb, leb, if◌then◌else◌, arith, Option, none, some, subst, sym, All, All-both, All-mono,
  Bool-cases, ◌⊎◌, inl, inr, List, [], ◌∷◌, mul64,
}
use mathlib.Core.Option.{some-injective}
use recurlocal.Base.Int.{ℤ, pos, ltℤ, pos_part}
use recurlocal.Recurrent.{
  StateSegment, WindowRegion, WindowScope, WindowTarget, PreTouchCoverage, StateKind,
}

-- A segment with memory.
abbrev pub usable : StateSegment → Bool
usable s = not (s.ptr == 0) && not (s.bytes == 0)

-- The first usable segment of a kind.
unfoldable pub first_of : (StateSegment → Bool) → List StateSegment → Option StateSegment
first_of wanted [] = none
first_of wanted (s ∷ ss) =
    let rest = first_of wanted ss in if usable s && wanted s then some s else rest

abbrev pub wins : (ℕ → ℕ → Bool) → StateSegment → Option StateSegment → Bool
wins better s none = true
wins better s (some b) = better s.bytes b.bytes

-- The loop that keeps the best segment so far; `better` says that the first replaces the second.
unfoldable pub best_of :
    (ℕ → ℕ → Bool) → List StateSegment → Option StateSegment → Option StateSegment
best_of better [] best = best
best_of better (s ∷ ss) best =
    let kept = best_of better ss best in
    let taken = best_of better ss (some s) in
    if usable s then (if wins better s best then taken else kept) else kept

abbrev is_matrix : StateSegment → Bool
is_matrix s = elim s.kind [
  | StateKind.matrix ↦ true
  | StateKind.conv ↦ false
  | StateKind.other ↦ false
]

abbrev is_conv : StateSegment → Bool
is_conv s = elim s.kind [
  | StateKind.matrix ↦ false
  | StateKind.conv ↦ true
  | StateKind.other ↦ false
]

-- A kind that is missing falls back to the first usable segment.
abbrev or_first : Option StateSegment → List StateSegment → Option StateSegment
or_first none ss = first_of (λ s. true) ss
or_first (some s) ss = some s

unfoldable pub select_window_segment : List StateSegment → WindowTarget → Option StateSegment
select_window_segment ss WindowTarget.matrix = or_first (first_of is_matrix ss) ss
select_window_segment ss WindowTarget.conv = or_first (first_of is_conv ss) ss
select_window_segment ss WindowTarget.widest = best_of (λ a b. ltb b a) ss none
select_window_segment ss WindowTarget.narrowest = best_of (λ a b. ltb a b) ss none

-- Whether the slice starts inside an allocation that the caller declared.
abbrev pub have_base : StateSegment → Bool
have_base s =
    not (s.base == 0)
    && not (s.base_bytes == 0)
    && leb s.base s.ptr
    && ltb s.ptr (s.base + s.base_bytes)

abbrev pub slice_of : StateSegment → WindowRegion
slice_of s = record { ptr = s.ptr; bytes = s.bytes }

abbrev reach_of : ℤ → ℕ
reach_of distance = if ltℤ (pos 0) distance then pos_part distance + 1 else 1

-- The span, cut off at the end of the allocation.
abbrev clamped_to : StateSegment → ℕ → WindowRegion
clamped_to s span =
    let remaining = s.base + s.base_bytes - s.ptr in
    record { ptr = s.ptr; bytes = if ltb remaining span then remaining else span }

unfoldable pub resolve_window_region : StateSegment → WindowScope → ℤ → WindowRegion
resolve_window_region s WindowScope.layer distance = slice_of s
resolve_window_region s WindowScope.allocation distance =
    if have_base s then record { ptr = s.base; bytes = s.base_bytes } else slice_of s
resolve_window_region s WindowScope.ahead distance =
    if not (have_base s) then slice_of s else clamped_to s (mul64 s.bytes (reach_of distance))

unfoldable pub pre_touch_covers : PreTouchCoverage → StateKind → Bool
pre_touch_covers PreTouchCoverage.matrix StateKind.matrix = true
pre_touch_covers PreTouchCoverage.matrix StateKind.conv = false
pre_touch_covers PreTouchCoverage.matrix StateKind.other = true
pre_touch_covers PreTouchCoverage.conv StateKind.matrix = false
pre_touch_covers PreTouchCoverage.conv StateKind.conv = true
pre_touch_covers PreTouchCoverage.conv StateKind.other = false
pre_touch_covers PreTouchCoverage.both kind = true

clamped_inside :
    (s : StateSegment) (span : ℕ)
    → have_base s ≡ true
    → (s.base ≤ (clamped_to s span).ptr)
      × ((clamped_to s span).ptr + (clamped_to s span).bytes ≤ s.base + s.base_bytes)
clamped_inside s span inside = ground arith

unclamped :
    (s : StateSegment) (x y : WindowRegion)
    → have_base s ≡ true
    → (if not (have_base s) then x else y) ≡ y
unclamped s x y inside = rw inside

-- Every region stays in memory the caller declared: it is the slice itself, or it lies in the allocation around the slice.
pub resolve_window_region-inside :
    (s : StateSegment) (scope : WindowScope) (distance : ℤ)
    → (resolve_window_region s scope distance ≡ slice_of s)
      ⊎ ((s.base ≤ (resolve_window_region s scope distance).ptr)
          × ((resolve_window_region s scope distance).ptr
                + (resolve_window_region s scope distance).bytes
              ≤ s.base + s.base_bytes))
unfolding resolve_window_region
resolve_window_region-inside s WindowScope.layer distance = inl refl
resolve_window_region-inside s WindowScope.allocation distance = elim (Bool-cases (have_base s)) [
  | inl inside ↦ inr (ground (arith, inside))
  | inr outside ↦ inl (rw outside)
]
resolve_window_region-inside s WindowScope.ahead distance = elim (Bool-cases (have_base s)) [
  | inl inside ↦ inr (
      subst (λ (r : WindowRegion). (s.base ≤ r.ptr) × (r.ptr + r.bytes ≤ s.base + s.base_bytes))
        (sym (unclamped s (slice_of s) (clamped_to s (mul64 s.bytes (reach_of distance))) inside))
        (clamped_inside s (mul64 s.bytes (reach_of distance)) inside))
  | inr outside ↦ inl (rw outside)
]
