-- ===== src/Planner/Streaming.antt =====
-- `emit_stream_hints` of planners/common.cpp.
use recurlocal.Base.{
  ℕ, Bool, false, not, ◌||◌, ◌==◌, ltb, leb, List, [], ◌∷◌, none, some, if◌then◌else◌,
}
use recurlocal.Base.Sort.{contains}
use recurlocal.Double.{Double}
use recurlocal.Tensor.{TensorDesc}
use recurlocal.Registry.{Registry, find}
use recurlocal.Graph.{TransitGraph, TensorUse, TensorProfile, has_reuse, no_next_use}
use recurlocal.Plan.{
  TransitPlan, TransitAction, CostModel, linear, residency, persist, stream, add, is_kind,
}
use recurlocal.Planner.{TransitPlannerConfig}
use recurlocal.Planner.Emit.{action_for, clear_after, no_kernel}
use recurlocal.Planner.Mask

-- The first and the last kernel that use the tensor, `no_kernel` before the first is met.
abbrev pub span_from : ℕ → ℕ × ℕ → List TensorUse → ℕ × ℕ
span_from tensor s [] = s
span_from tensor (first, last) (u ∷ us) =
    span_from tensor
      (if u.tensor == tensor
        then (if first == no_kernel then u.kernel else first, u.kernel)
        else (first, last))
      us

-- Whether no budget could keep the tensor until its next use.
abbrev pub is_beyond : CostModel → ℕ → TensorProfile → Bool
is_beyond linear budget p = false
is_beyond residency budget p =
    not (budget == 0 || p.min_reuse_bytes == no_next_use || leb p.min_reuse_bytes budget)

module _ {W : Type 0} ⦃d : Double W⦄ where
  abbrev pub persisted : List (TransitAction W) → List ℕ
  persisted [] = []
  persisted (a ∷ acts) =
      if is_kind a.kind persist then a.tensor ∷ persisted acts else persisted acts

  -- `emit_stream_hints` passes the tensor over.
  pub is_kept : TransitPlannerConfig W → List ℕ → ℕ → TensorProfile → Bool
  is_kept c held budget p =
      not (Mask.has c.stream_roles p.role)
      || contains p.tensor held
      || ltb p.bytes c.stream_min_bytes
      || (if has_reuse p then not (is_beyond c.cost_model budget p) else false)

  abbrev pub stream_hint : TensorProfile → TensorDesc → ℕ → TransitAction W
  stream_hint p desc kernel = record (action_for stream p.tensor p.role) {
    ptr = desc.ptr;
    bytes = desc.bytes;
    before_kernel = kernel;
  }

  pub hint_for : Registry → TransitGraph → TensorProfile → TransitPlan W → TransitPlan W
  hint_for r g p plan = elim (find r p.tensor) [
    | none ↦ plan
    | some desc ↦
        let (first, last) = span_from p.tensor (no_kernel, no_kernel) g.uses in
        if first == no_kernel
        then plan
        else add (add plan (stream_hint p desc first)) (clear_after p.tensor p.role last)
  ]

  pub hint_each :
      TransitPlannerConfig W
      → Registry
      → TransitGraph
      → List ℕ
      → ℕ
      → List TensorProfile
      → TransitPlan W
      → TransitPlan W
  hint_each c r g held budget [] plan = plan
  hint_each c r g held budget (p ∷ ps) plan =
      hint_each c r g held budget ps (if is_kept c held budget p then plan else hint_for r g p plan)

  pub emit_stream_hints :
      TransitPlannerConfig W → Registry → TransitGraph → ℕ → TransitPlan W → TransitPlan W
  emit_stream_hints c r g budget plan =
      if Mask.is_empty c.stream_roles
      then plan
      else hint_each c r g (persisted plan.actions) budget g.profiles plan
