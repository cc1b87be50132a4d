-- ===== src/Trace/Examples.antt =====
-- Concrete runs of src/trace.cpp.
use Prim.Native.String.{String}
use recurlocal.Double.{Fixed, fixed_double}
use recurlocal.Plan.{TransitPlan}
use recurlocal.Plan.Validate
use recurlocal.Plan.Validate.{validate}
use recurlocal.Graph.{c_string}
use recurlocal.Trace.ReadPlan
use recurlocal.Trace.Tables.{bytes_of_text, parse_name}
use recurlocal.Trace.ReadPlan.{read_plan, PlanProblem}
use recurlocal.Trace.ReadPlan.NoAddress.{IsReadable, read_plan-IsReadable}
use recurlocal.Base.{
  ◌+◌, ◌*◌, ◌-◌, Option, none, ℕ, List, [], ◌∷◌, ◌++◌, filterb, length, true, ◌≡◌, refl,
}
use recurlocal.Trace
use recurlocal.Trace.Json
use recurlocal.Trace.Strings.{is_kept, string-emit_string}
use recurlocal.Trace.Json.Settles.{IsAnswer, parse-IsAnswer}

-- `a"`, a line feed, a byte outside ASCII and a backslash.
abbrev label : List ℕ
label = 97 ∷ 34 ∷ 10 ∷ 200 ∷ 92 ∷ []

string-emit_string_example :
    Trace.string (Trace.emit_string [] label ++ (44 ∷ []))
    ≡ Trace.done (filterb is_kept label) (44 ∷ [])
string-emit_string_example = string-emit_string label (44 ∷ [])

-- A stand-in for `std::strtod`: the number of characters.
abbrev count : List ℕ → ℕ
count xs = length xs

-- `{"a":[1,true]}`
abbrev document : List ℕ
document = 123 ∷ 34 ∷ 97 ∷ 34 ∷ 58 ∷ 91 ∷ 49 ∷ 44 ∷ 116 ∷ 114 ∷ 117 ∷ 101 ∷ 93 ∷ 125 ∷ []

parse-document :
    Json.parse count document
    ≡ Trace.done
        (Json.object (
          Json.field
            (97 ∷ [])
            (Json.array
              (Json.element (Json.number 1) (Json.element (Json.boolean true) Json.no_elements)))
            Json.no_fields))
        []
unfolding Json.parse Json.value Json.value_at Json.opening Json.object_after Json.array_after
    Json.fields Json.elements Json.scalar Json.word_or Json.closed Json.read_key Json.after_colon
    Json.separator Json.after_element Json.and_then Json.whole Json.put Json.push_back Trace.skip
    Trace.string Trace.string_from Trace.literal Trace.number Trace.number_part Trace.sign_part
parse-document = refl

parse-IsAnswer_example : IsAnswer document (Json.parse count document)
parse-IsAnswer_example = parse-IsAnswer count document

-- Bytes as a text for the tests: the empty one.
abbrev no_text : List ℕ → String
no_text bytes = ""

-- A stand-in for `std::strtod` on digits, in fixed point.
abbrev digits : ℕ → List ℕ → ℕ
digits n [] = n * 10_000
digits n (c ∷ cs) = digits (n * 10 + (c - 48)) cs

abbrev plan_text : List ℕ
plan_text =
    bytes_of_text
      "{\"plan_schema_version\":1,\"actions\":[{\"kind\":\"stream\",\"tensor\":7,\"before_kernel\":3,\"bytes\":64}]}"

abbrev plan_read : TransitPlan Fixed × Option PlanProblem
plan_read = read_plan no_text (digits 0) plan_text

read_plan-IsReadable_example : IsReadable plan_read
read_plan-IsReadable_example = read_plan-IsReadable no_text (digits 0) plan_text

-- The plan is accepted, with its one action.
plan_is_accepted : plan_read.1 ≡ none
unfolding Json.parse Json.value Json.value_at Json.opening Json.object_after Json.array_after
    Json.fields Json.elements Json.scalar Json.word_or Json.closed Json.read_key Json.after_colon
    Json.separator Json.after_element Json.and_then Json.whole Json.put Json.push_back Trace.skip
    Trace.string Trace.string_from Trace.literal Trace.number Trace.number_part Trace.sign_part
    Json.find Json.find_field Json.text_eq bytes_of_text parse_name c_string read_plan
    ReadPlan.plan_of_answer ReadPlan.plan_of_root ReadPlan.plan_of ReadPlan.of_version
    ReadPlan.as_u64 ReadPlan.as_string ReadPlan.after_actions ReadPlan.read_actions
    ReadPlan.kind_of_item ReadPlan.elements_at ReadPlan.read_declines ReadPlan.with_name
    ReadPlan.with_cost ReadPlan.checked ReadPlan.judged ReadPlan.action_of ReadPlan.u64_or
    ReadPlan.name_or ReadPlan.double_or ReadPlan.as_double validate Validate.first_problem
    Validate.check_action Validate.check_region Validate.check_cleared Validate.check_installed
    Validate.check_joined
plan_is_accepted = refl
