-- ===== src/Trace/ReadPlan.antt =====
-- `read_plan` of src/trace.cpp. The error's text is kept in its parts. An `int` that comes from a number
-- is its 32 bits.
pub mod NoAddress
use Prim.Native.String.{String}
use recurlocal.Base.{
  ℕ, ◌+◌, ◌-◌, ◌%◌, ◌^◌, Bool, true, false, Option, none, some, List, [], ◌∷◌, ◌==◌, if◌then◌else◌,
  length,
}
use recurlocal.Double.{Double, nought, to_nat}
use recurlocal.Tensor.{TensorRole}
use recurlocal.Plan.{
  TransitActionKind, TransitAction, TransitDecline, DeclineReason, PlanCostModel, TransitPlan,
  no_plan, add, decline,
}
use recurlocal.Plan.Index.{finalize}
use recurlocal.Plan.Validate.{validate}
use recurlocal.Trace.{Read, done, refused, out_of_fuel}
use recurlocal.Trace.Json
use recurlocal.Trace.Tables.{bytes_of_text, parse_name, roles, kinds, reasons, cost_models}

-- What `read_plan` refuses: the text at a byte, the document's shape or the schema's version, an action of
-- an unknown kind, or a plan that is not well formed.
pub data PlanProblem : Type 0 where
  syntax : String → ℕ → PlanProblem
  not_an_object : PlanProblem
  other_schema : ℕ → PlanProblem
  unknown_kind : PlanProblem
  not_well_formed : String → PlanProblem

module _ {W : Type 0} ⦃d : Double W⦄ where
  -- `Value::as_u64` and `Value::as_string` with their default fallbacks.
  unfoldable pub as_u64 : Json.Value W → ℕ
  as_u64 (Json.number x) = to_nat x
  as_u64 v = 0

  unfoldable pub as_string : Json.Value W → List ℕ
  as_string (Json.quoted t) = t
  as_string v = []

  -- `v->type == Number ? v->number : 0.0`.
  unfoldable pub as_double : Json.Value W → W
  as_double (Json.number x) = x
  as_double v = nought

  abbrev pub find_named : Json.Value W → String → Option (Json.Value W)
  find_named v key = Json.find v (bytes_of_text key)

  -- `if (const Value* v = item.find(key)) field = as_u64()`, for the field's present value.
  unfoldable pub u64_or : Json.Value W → String → ℕ → ℕ
  u64_or item key old = elim (find_named item key) [ some v ↦ as_u64 v | none ↦ old ]

  unfoldable pub double_or : Json.Value W → String → W → W
  double_or item key old = elim (find_named item key) [ some v ↦ as_double v | none ↦ old ]

  -- A name that is missing or unknown leaves the field.
  unfoldable pub name_or {ℓ} : {A : Type ℓ} → List (String × A) → Json.Value W → String → A → A
  name_or table item key old = elim (find_named item key) [
    | some v ↦ elim (parse_name table (as_string v)) [ some a ↦ a | none ↦ old ]
    | none ↦ old
  ]

  unfoldable pub kind_of_item : Json.Value W → Option TransitActionKind
  kind_of_item item = elim (find_named item "kind") [
    | some v ↦ parse_name kinds (as_string v)
    | none ↦ none
  ]

  -- The action of an item. It has no address.
  unfoldable pub action_of : TransitActionKind → Json.Value W → TransitAction W
  action_of kind item = record {
    kind = kind;
    tensor = u64_or item "tensor" 0;
    before_kernel = u64_or item "before_kernel" 0;
    after_kernel = u64_or item "after_kernel" 0;
    ptr = 0;
    bytes = u64_or item "bytes" 0;
    hit_ratio = double_or item "hit_ratio" nought;
    stream_id = u64_or item "stream" 0 % 2 ^ 32;
    event_id = u64_or item "event" 0 % 2 ^ 32;
    expected_saved_bytes = u64_or item "expected_saved_bytes" 0;
    role = name_or roles item "role" TensorRole.unknown;
  }

  -- The loop over the actions; `none` at an item of an unknown kind. The actions before it stay in the plan.
  unfoldable pub read_actions : Json.Array W → TransitPlan W → TransitPlan W × Option PlanProblem
  read_actions Json.no_elements p = (p, none)
  read_actions (Json.element item items) p = elim (kind_of_item item) [
    | some kind ↦ read_actions items (add p (action_of kind item))
    | none ↦ (p, some unknown_kind)
  ]

  unfoldable pub decline_of : Json.Value W → TransitDecline
  decline_of item = record {
    tensor = u64_or item "tensor" 0;
    role = name_or roles item "role" TensorRole.unknown;
    reason = name_or reasons item "reason" DeclineReason.no_reason;
    bytes = u64_or item "bytes" 0;
    forgone_saved_bytes = u64_or item "forgone_saved_bytes" 0;
  }

  unfoldable pub read_declines : Json.Array W → TransitPlan W → TransitPlan W
  read_declines Json.no_elements p = p
  read_declines (Json.element item items) p = read_declines items (decline p (decline_of item))

  unfoldable pub cost_of : Json.Value W → PlanCostModel → PlanCostModel
  cost_of cost c = record {
    step_traffic_bytes = u64_or cost "step_traffic_bytes" c.step_traffic_bytes;
    removable_bytes = u64_or cost "removable_bytes" c.removable_bytes;
    bounded_removable_bytes = u64_or cost "bounded_removable_bytes" c.bounded_removable_bytes;
    predicted_saved_bytes = u64_or cost "predicted_saved_bytes" c.predicted_saved_bytes;
    budget_bytes = u64_or cost "budget_bytes" c.budget_bytes;
    committed_bytes = u64_or cost "committed_bytes" c.committed_bytes;
    peak_live_bytes = u64_or cost "peak_live_bytes" c.peak_live_bytes;
    resident_bytes = u64_or cost "resident_bytes" c.resident_bytes;
    stream_relieved_bytes = u64_or cost "stream_relieved_bytes" c.stream_relieved_bytes;
    predicted_gross_saved_bytes =
        u64_or cost "predicted_gross_saved_bytes" c.predicted_gross_saved_bytes;
    reservation_cost_bytes = u64_or cost "reservation_cost_bytes" c.reservation_cost_bytes;
    cost_model = name_or cost_models cost "cost_model" c.cost_model;
  }

  -- The elements of a member that is an array, none for anything else.
  unfoldable pub elements_at : Json.Value W → String → Json.Array W
  elements_at root key = elim (find_named root key) [
    | some (Json.array items) ↦ items
    | _ ↦ Json.no_elements
  ]

  unfoldable pub judged : TransitPlan W → Option String → TransitPlan W × Option PlanProblem
  judged p none = (p, none)
  judged p (some problem) = (p, some (not_well_formed problem))

  -- The end of `read_plan`: the plan is finalized in any case, and then validated.
  unfoldable pub checked : TransitPlan W → TransitPlan W × Option PlanProblem
  checked p = judged (finalize p) (validate p.actions)

  unfoldable pub with_cost : Option (Json.Value W) → TransitPlan W → TransitPlan W
  with_cost (some cost) p = record p { cost = cost_of cost p.cost }
  with_cost none p = p

  unfoldable pub after_actions :
      Json.Value W → TransitPlan W × Option PlanProblem → TransitPlan W × Option PlanProblem
  after_actions root (p, some problem) = (p, some problem)
  after_actions root (p, none) =
      checked
        (with_cost (find_named root "cost_model") (read_declines (elements_at root "declines") p))

  -- The texts of names are the library's; `text_of` gives the one that some bytes are.
  unfoldable pub with_name :
      (List ℕ → String) → Option (Json.Value W) → TransitPlan W → TransitPlan W
  with_name text_of (some v) p = record p { planner_name = text_of (as_string v) }
  with_name text_of none p = p

  -- The rest of the document, by the value of its schema version.
  unfoldable pub of_version :
      (List ℕ → String) → Json.Value W → Option (Json.Value W) → TransitPlan W × Option PlanProblem
  of_version text_of root none = (no_plan, some (other_schema 0))
  of_version text_of root (some version) =
      if as_u64 version == 1
      then after_actions root (
          read_actions (elements_at root "actions")
            (with_name text_of (find_named root "planner") no_plan))
      else (no_plan, some (other_schema (as_u64 version)))

  unfoldable pub plan_of : (List ℕ → String) → Json.Value W → TransitPlan W × Option PlanProblem
  plan_of text_of root = of_version text_of root (find_named root "plan_schema_version")

  unfoldable pub plan_of_root :
      (List ℕ → String) → Json.Value W → TransitPlan W × Option PlanProblem
  plan_of_root text_of (Json.object o) = plan_of text_of (Json.object o)
  plan_of_root text_of v = (no_plan, some not_an_object)

  -- What becomes of the reader's answer, for a document of the given size.
  unfoldable pub plan_of_answer :
      (List ℕ → String) → ℕ → Read (Json.Value W) → TransitPlan W × Option PlanProblem
  plan_of_answer text_of size (done v rest) = plan_of_root text_of v
  plan_of_answer text_of size (refused message rest) =
      (no_plan, some (syntax message (size - length rest)))
  plan_of_answer text_of size out_of_fuel = (no_plan, some (syntax "" size))

  -- `read_plan`, which returns true exactly when there is no problem.
  unfoldable pub read_plan :
      (List ℕ → String) → (List ℕ → W) → List ℕ → TransitPlan W × Option PlanProblem
  read_plan text_of strtod json = plan_of_answer text_of (length json) (Json.parse strtod json)
