-- ===== src/Recurrent/Window/Best.antt =====
-- The widest and the narrowest segment in `select_window_segment` of src/recurrent_planner.cpp.
use recurlocal.Base.{
  Option-cases, get_elem?, suc, ℕ, ◌≤◌, ◌≡◌, refl, Bool, true, false, ltb, arith, Option, none,
  some, subst, All, All-mono, Bool-cases, ◌⊎◌, inl, inr, List, [], ◌∷◌,
}
use mathlib.Core.Option.{some-injective}
use recurlocal.Recurrent.{StateSegment, WindowTarget}
use recurlocal.Recurrent.Window.{usable, wins, best_of, select_window_segment}

abbrev IsBeaten : (ℕ → ℕ → Bool) → StateSegment → StateSegment → Type 0
IsBeaten better s t = (usable t ≡ false) ⊎ (better t.bytes s.bytes ≡ false)

-- A best segment beats what it started from and every usable segment of the list.
module _ (better : ℕ → ℕ → Bool) (asymmetric : (a b : ℕ) → better a b ≡ true → better b a ≡ false)
    (negative : (a b c : ℕ) → better a b ≡ false → better b c ≡ false → better a c ≡ false) where
  irreflexive : (a : ℕ) → better a a ≡ false
  irreflexive a = elim (Bool-cases (better a a)) [
    | inl more ↦ asymmetric a a more
    | inr never ↦ never
  ]

  best_of-some :
      (ss : List StateSegment) (b s : StateSegment)
      → best_of better ss (some b) ≡ some s
      → (better b.bytes s.bytes ≡ false) × All (IsBeaten better s) ss
  unfolding best_of
  best_of-some [] b s e = (
    subst (λ (x : StateSegment). better b.bytes x.bytes ≡ false) (some-injective _ _ e)
        (irreflexive b.bytes),
    tt,
  )
  best_of-some (t ∷ ts) b s e = elim (Bool-cases (usable t)) [
    | inl usable_t ↦ elim (Bool-cases (better t.bytes b.bytes)) [
      | inl won ↦
          let (above, beaten) = best_of-some ts t s (ground (arith, usable_t, won, e)) in
          (
            negative b.bytes t.bytes s.bytes (asymmetric t.bytes b.bytes won) above,
            (inr above, beaten),
          )
      | inr lost ↦
          let (above, beaten) = best_of-some ts b s (ground (arith, usable_t, lost, e)) in
          (above, (inr (negative t.bytes b.bytes s.bytes lost above), beaten))
    ]
    | inr unusable ↦
        let (above, beaten) = best_of-some ts b s (ground (arith, unusable, e)) in
        (above, (inl unusable, beaten))
  ]

  best_of-none :
      (ss : List StateSegment) (s : StateSegment)
      → best_of better ss none ≡ some s
      → All (IsBeaten better s) ss
  unfolding best_of
  best_of-none [] s e = tt
  best_of-none (t ∷ ts) s e = elim (Bool-cases (usable t)) [
    | inl usable_t ↦
        let (above, beaten) = best_of-some ts t s (ground (arith, usable_t, e)) in
        (inr above, beaten)
    | inr unusable ↦ (inl unusable, best_of-none ts s (ground (arith, unusable, e)))
  ]

-- A segment is chosen when it is in the list and has memory.
abbrev pub IsChoice : List StateSegment → StateSegment → Type 0
IsChoice ss s = (usable s ≡ true) × ((i : ℕ) × (get_elem? ss i ≡ some s))

IsChoice-later :
    (t : StateSegment) (ss : List StateSegment) (s : StateSegment)
    → IsChoice ss s
    → IsChoice (t ∷ ss) s
IsChoice-later t ss s (fine, (i, e)) = (fine, (suc i, e))

-- The loop ends with what it started from or with a usable segment of the list.
best_of-IsChoice :
    (better : ℕ → ℕ → Bool) (ss : List StateSegment) (o : Option StateSegment) (s : StateSegment)
    → best_of better ss o ≡ some s
    → (o ≡ some s) ⊎ IsChoice ss s
unfolding best_of
best_of-IsChoice better [] o s e = inl e
best_of-IsChoice better (t ∷ ts) o s e = elim (Bool-cases (usable t)) [
  | inr unusable ↦ elim (best_of-IsChoice better ts o s (ground (arith, unusable, e))) [
    | inl start ↦ inl start
    | inr chosen ↦ inr (IsChoice-later t ts s chosen)
  ]
  | inl usable_t ↦ elim (Bool-cases (wins better t o)) [
    | inl won ↦ elim (best_of-IsChoice better ts (some t) s (ground (arith, usable_t, won, e))) [
      | inl start ↦
          inr (subst (λ x. IsChoice (t ∷ ts) x) (some-injective _ _ start) (usable_t, (0, refl)))
      | inr chosen ↦ inr (IsChoice-later t ts s chosen)
    ]
    | inr lost ↦ elim (best_of-IsChoice better ts o s (ground (arith, usable_t, lost, e))) [
      | inl start ↦ inl start
      | inr chosen ↦ inr (IsChoice-later t ts s chosen)
    ]
  ]
]

-- The loop ends with nothing only when it met no usable segment.
best_of-unusable :
    (better : ℕ → ℕ → Bool) (ss : List StateSegment) (o : Option StateSegment)
    → best_of better ss o ≡ none
    → (o ≡ none) × All (λ t. usable t ≡ false) ss
unfolding best_of
best_of-unusable better [] o e = (e, tt)
best_of-unusable better (t ∷ ts) o e = elim (Bool-cases (usable t)) [
  | inr unusable ↦
      let (start, rest) = best_of-unusable better ts o (ground (arith, unusable, e)) in
      (start, (unusable, rest))
  | inl usable_t ↦ elim (Bool-cases (wins better t o)) [
    | inl won ↦
        let (bad, rest) = best_of-unusable better ts (some t) (ground (arith, usable_t, won, e)) in
        cc
    | inr lost ↦
        let (start, rest) = best_of-unusable better ts o (ground (arith, usable_t, lost, e)) in
        ground (arith, start, lost)
  ]
]

-- What the choice of a best segment gives: nothing when none is usable, and otherwise a usable segment of the
-- list whose bytes stand in the relation to those of every usable one.
abbrev pub IsBest : (ℕ → ℕ → Type 0) → List StateSegment → Option StateSegment → Type 0
IsBest below ss none = All (λ t. usable t ≡ false) ss
IsBest below ss (some s) = IsChoice ss s × All (λ t. (usable t ≡ false) ⊎ below t.bytes s.bytes) ss

from_none :
    (ss : List StateSegment) (s : StateSegment) → (none ≡ some s) ⊎ IsChoice ss s → IsChoice ss s
from_none ss s (inl never) = cc
from_none ss s (inr chosen) = chosen

-- The loop from nothing, where what does not replace is in the relation.
best_of-IsBest :
    (better : ℕ → ℕ → Bool) (below : ℕ → ℕ → Type 0)
    → ((a b : ℕ) → better a b ≡ true → better b a ≡ false)
    → ((a b c : ℕ) → better a b ≡ false → better b c ≡ false → better a c ≡ false)
    → ((a b : ℕ) → better a b ≡ false → below a b)
    → (ss : List StateSegment) → IsBest below ss (best_of better ss none)
best_of-IsBest better below asymmetric negative holds ss =
    elim (Option-cases (best_of better ss none)) [
      | inl nothing ↦ rw (nothing, IsBest) (best_of-unusable better ss none nothing).1
      | inr (s, chosen) ↦
          rw (chosen, IsBest)
            (
              from_none ss s (best_of-IsChoice better ss none s chosen),
              All-mono (IsBeaten better s) ss (best_of-none better asymmetric negative ss s chosen)
                  (λ t h. elim h [
                    | inl unusable ↦ inl unusable
                    | inr lost ↦ inr (holds t.bytes s.bytes lost)
                  ]),
            )
    ]

-- The segment chosen as widest is a usable one of the list, at least as wide as every usable one; the
-- narrowest is a usable one, at most as wide as every usable one; and either choice is empty only when no
-- segment is usable.
pub select_window_segment-IsBest :
    (ss : List StateSegment)
    → IsBest (λ a b. a ≤ b) ss (select_window_segment ss WindowTarget.widest)
      × IsBest (λ a b. b ≤ a) ss (select_window_segment ss WindowTarget.narrowest)
unfolding select_window_segment
select_window_segment-IsBest ss = (
  best_of-IsBest (λ a b. ltb b a) (λ a b. a ≤ b) (λ a b h. ground arith) (λ a b c h k. ground arith)
      (λ a b h. ground arith) ss,
  best_of-IsBest (λ a b. ltb a b) (λ a b. b ≤ a) (λ a b h. ground arith) (λ a b c h k. ground arith)
      (λ a b h. ground arith) ss,
)
