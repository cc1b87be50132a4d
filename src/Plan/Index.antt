-- ===== src/Plan/Index.antt =====
-- `TransitPlan::finalize`, `before` and `after`: the per-kernel index.
pub mod Lookup
use recurlocal.Base.{
  drop, ◌-◌, get_or, take, ◌||◌, ℕ, zero, suc, ◌+◌, Bool, true, false, ◌&&◌, ◌==◌, ltb, List, [],
  ◌∷◌, ◌++◌, Option, none, some, if◌then◌else◌, get_elem?, length, sub64,
}
use recurlocal.Base.Sort.{sort, contains, lower_bound}
use recurlocal.Plan.{TransitAction, KernelIndex, no_index, TransitPlan}

module _ {W : Type 0} (at : TransitAction W → ℕ) where
  -- The kernels named, each once, in the order of their first action.
  pub kernels_from : List ℕ → List (TransitAction W) → List ℕ
  kernels_from seen [] = seen
  kernels_from seen (a ∷ rest) =
      kernels_from (if at a == 0 || contains (at a) seen then seen else seen ++ (at a ∷ [])) rest

  -- The positions, from `i` on, of the actions placed at the kernel.
  unfoldable pub positions : ℕ → ℕ → List (TransitAction W) → List ℕ
  positions kernel i [] = []
  positions kernel i (a ∷ rest) =
      if at a == kernel then i ∷ positions kernel (i + 1) rest else positions kernel (i + 1) rest

  pub add_groups : List (TransitAction W) → List ℕ → KernelIndex → KernelIndex
  add_groups actions [] x = x
  add_groups actions (kernel ∷ kernels) x =
      let grown = x.index ++ positions kernel 0 actions in
      add_groups actions kernels (record {
        index = grown;
        keys = x.keys ++ (kernel ∷ []);
        offsets = x.offsets ++ (length grown ∷ []);
      })

  pub build_index : List (TransitAction W) → KernelIndex
  build_index actions =
      add_groups actions (sort ltb (kernels_from [] actions))
        (record { index = []; keys = []; offsets = 0 ∷ [] })

-- The elements of a vector from one offset up to another.
pub slice : List ℕ → ℕ → ℕ → List ℕ
slice xs from to = take (to - from) (drop from xs)

-- The walk over one group: `none` where the kernel has none.
pub group_at : KernelIndex → ℕ → Option (List ℕ)
group_at x kernel =
    let slot = lower_bound x.keys kernel in
    elim (get_elem? x.keys slot) [
      | none ↦ none
      | some key ↦
          if key == kernel
          then some (slice x.index (get_or x.offsets slot 0) (get_or x.offsets (suc slot) 0))
          else none
    ]

module _ {W : Type 0} where
  unfoldable pub finalize : TransitPlan W → TransitPlan W
  finalize p = record p {
    before_index = build_index (λ a. a.before_kernel) p.actions;
    after_index = build_index (λ a. a.after_kernel) p.actions;
    finalized = true;
  }

  pub before : TransitPlan W → ℕ → Option (List ℕ)
  before p kernel = if p.finalized then group_at p.before_index kernel else none

  pub after : TransitPlan W → ℕ → Option (List ℕ)
  after p kernel = if p.finalized then group_at p.after_index kernel else none
