-- ===== src/Trace/Tables.antt =====
-- The name tables that the readers of src/trace.cpp look in: roles and access kinds of
-- src/tensor_registry.cpp, kinds and reasons of src/plan.cpp, cost models of src/planner_registry.cpp.
use Prim.Native.String.{String}
use Prim.Native.Char.{code}
use recurlocal.Base.{ℕ, Option, none, some, List, [], ◌∷◌, if◌then◌else◌}
use recurlocal.Tensor.{TensorRole, AccessKind}
use recurlocal.Plan.{TransitActionKind, DeclineReason, CostModel}
use recurlocal.Graph.{c_string}
use recurlocal.Trace.Json.{text_eq}

-- The bytes of an ASCII text.
unfoldable pub bytes_of_text : String → List ℕ
bytes_of_text String.[] = []
bytes_of_text (String.◌∷◌ c s) = code c ∷ bytes_of_text s

-- The loop of every `parse_...` over its table, on a `std::string`'s `c_str()`.
unfoldable pub parse_name {ℓ} : {A : Type ℓ} → List (String × A) → List ℕ → Option A
parse_name [] text = none
parse_name ((name, v) ∷ table) text =
    if text_eq (bytes_of_text name) (c_string text) then some v else parse_name table text

abbrev pub roles : List (String × TensorRole)
roles =
    ("unknown", TensorRole.unknown)
    ∷ ("recurrent_state", TensorRole.recurrent_state)
    ∷ ("kv_cache", TensorRole.kv_cache)
    ∷ ("model_weight", TensorRole.model_weight)
    ∷ ("expert_weight", TensorRole.expert_weight)
    ∷ ("activation", TensorRole.activation)
    ∷ ("workspace", TensorRole.workspace)
    ∷ ("speculative_state", TensorRole.speculative_state)
    ∷ ("multimodal_feature", TensorRole.multimodal_feature)
    ∷ []

abbrev pub accesses : List (String × AccessKind)
accesses =
    ("read", AccessKind.read)
    ∷ ("write", AccessKind.write)
    ∷ ("read_write", AccessKind.read_write)
    ∷ []

abbrev pub kinds : List (String × TransitActionKind)
kinds =
    ("normal", TransitActionKind.normal)
    ∷ ("persist", TransitActionKind.persist)
    ∷ ("stream", TransitActionKind.stream)
    ∷ ("prefetch", TransitActionKind.prefetch)
    ∷ ("rotate_window", TransitActionKind.rotate_window)
    ∷ ("clear_policy", TransitActionKind.clear_policy)
    ∷ ("record_event", TransitActionKind.record_event)
    ∷ ("wait_event", TransitActionKind.wait_event)
    ∷ []

abbrev pub reasons : List (String × DeclineReason)
reasons =
    ("none", DeclineReason.no_reason)
    ∷ ("no_reuse", DeclineReason.no_reuse)
    ∷ ("budget_exhausted", DeclineReason.budget_exhausted)
    ∷ ("too_large", DeclineReason.too_large)
    ∷ ("reuse_too_far", DeclineReason.reuse_too_far)
    ∷ ("role_excluded", DeclineReason.role_excluded)
    ∷ ("below_min_hit_ratio", DeclineReason.below_min_hit_ratio)
    ∷ ("not_supported", DeclineReason.not_supported)
    ∷ []

abbrev pub cost_models : List (String × CostModel)
cost_models = ("linear", CostModel.linear) ∷ ("residency", CostModel.residency) ∷ []
