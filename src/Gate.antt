-- ===== src/Gate.antt =====
-- conformance/result_gate.py: the check of a decoded result file before it counts as evidence.
-- A JSON `null` and a missing field are both Python's `None`.
pub mod Evidence
pub mod Parts
pub mod Groups
pub mod Acceptance
use conformance_suite_v.Base.{
  ℕ, zero, suc, ◌+◌, String, Bool, true, false, not, ◌&&◌, ◌||◌, Option, none, some, List, [], ◌∷◌,
  Result, ok, err, ◌>>=◌, ◌>>◌, str_eq, ◌==◌, if◌then◌else◌, length, count_if, elem, any,
}
use conformance_suite_v.Base.Json.{
  is_text, Json, null, bool, num, str, arr, obj, Number, integer, Items, Fields, field_of, entries,
}

-- the location that a message names: `result.steps[3]` is `index (part root "steps") 3`
pub data Location : Type 0 where
  root : Location
  part : Location → String → Location
  index : Location → ℕ → Location

-- `StructuredResultGateError`, by its messages; and the `TypeError` that `in` raises when it looks
-- up an array or an object in a set
pub data GateError : Type 0 where
  not_object : Location → GateError
  not_array : Location → GateError
  unknown_status : Location → GateError
  not_count : Location → GateError
  not_passed : GateError
  failed_reported : GateError
  no_steps : GateError
  failed_steps : ℕ → GateError
  count_mismatch : GateError
  groups_required : GateError
  failed_group : Location → GateError
  failed_case : Location → GateError
  failed_case_step : Location → GateError
  no_cases : GateError
  unhashable : GateError

-- `if not test: raise error`
abbrev pub require : Bool → GateError → Result GateError (Unit {0})
require true error = ok tt
require false error = err error

-- `_object` and `_array`
abbrev pub object_at : Location → Option Json → Result GateError Fields
object_at location (some (obj fields)) = ok fields
object_at location _ = err (not_object location)

abbrev pub array_at : Location → Option Json → Result GateError (List Json)
array_at location (some (arr items)) = ok (entries items)
array_at location _ = err (not_array location)

abbrev pub result_statuses : List String
result_statuses = "passed" ∷ "failed" ∷ "warn" ∷ "skipped" ∷ []

abbrev pub known_status : Location → Option Json → Result GateError String
known_status location (some (str status)) =
    if elem status result_statuses then ok status else err (unknown_status location)
known_status location _ = err (unknown_status location)

-- `_status`
abbrev pub status_at : Location → Fields → Result GateError String
status_at location fields = known_status location (field_of fields "status")

-- `_status` of `_object`
abbrev pub entry_status : Location → Json → Result GateError String
entry_status location value = do fields ← object_at location (some value); status_at location fields

-- `_statuses`, from the entry with number `i` on
unfoldable pub statuses_at : Location → ℕ → List Json → Result GateError (List String)
statuses_at location i [] = ok []
statuses_at location i (value ∷ values) = do
  status ← entry_status (index location i) value
  rest ← statuses_at location (suc i) values
  ok (status ∷ rest)

-- `_non_negative_integer`
abbrev pub count_at : Location → Option Json → Result GateError ℕ
count_at location (some (num (integer false n))) = ok n
count_at location (some (num (integer true n))) = if n == 0 then ok 0 else err (not_count location)
count_at location _ = err (not_count location)

-- `_reject_failed_trace_cases`, from the case with number `i` on
unfoldable pub reject_failed_trace_cases : Location → ℕ → List Json → Result GateError (Unit {0})
reject_failed_trace_cases location i [] = ok tt
reject_failed_trace_cases location i (value ∷ values) = do
  case ← object_at (index location i) (some value)
  status ← status_at (index location i) case
  require (not (str_eq status "failed")) (failed_case (index location i))
  steps ← array_at (part (index location i) "steps") (field_of case "steps")
  statuses ← statuses_at (part (index location i) "steps") 0 steps
  require (not (elem "failed" statuses)) (failed_case_step (part (index location i) "steps"))
  reject_failed_trace_cases location (suc i) values

-- the loop over the groups, which adds up the cases
unfoldable pub count_cases : Location → ℕ → List Json → Result GateError ℕ
unfolding reject_failed_trace_cases
count_cases location i [] = ok 0
count_cases location i (value ∷ values) = do
  group ← object_at (index location i) (some value)
  status ← status_at (index location i) group
  require (not (str_eq status "failed")) (failed_group (index location i))
  cases ← array_at (part (index location i) "testCases") (field_of group "testCases")
  reject_failed_trace_cases (part (index location i) "testCases") 0 cases
  rest ← count_cases location (suc i) values
  ok (length cases + rest)

-- `catalogue.get("api") in {"dcr", "dynamic-client-registration"}`
abbrev pub is_dcr : Option Json → Result GateError Bool
is_dcr (some (arr _)) = err unhashable
is_dcr (some (obj _)) = err unhashable
is_dcr api = ok (is_text "dcr" api || is_text "dynamic-client-registration" api)

abbrev pub trace_groups_location : Location
trace_groups_location = part (part root "catalogue") "traceGroups"

-- the part of the trace groups
abbrev pub groups_case_count : Bool → Option Json → Result GateError ℕ
groups_case_count dcr none = if dcr then err groups_required else ok 0
groups_case_count dcr (some null) = if dcr then err groups_required else ok 0
groups_case_count dcr (some groups) = do
  values ← array_at trace_groups_location (some groups)
  count_cases trace_groups_location 0 values

abbrev pub catalogue_fields_count : Fields → Result GateError ℕ
catalogue_fields_count catalogue = do
  dcr ← is_dcr (field_of catalogue "api")
  count ← groups_case_count dcr (field_of catalogue "traceGroups")
  require (not (dcr && count == 0)) no_cases
  ok count

abbrev pub catalogue_case_count : Option Json → Result GateError ℕ
catalogue_case_count none = ok 0
catalogue_case_count (some null) = ok 0
catalogue_case_count (some catalogue) = do
  fields ← object_at (part root "catalogue") (some catalogue)
  catalogue_fields_count fields

pub record Validated : Type 0 where
  pub step_count : ℕ
  pub case_count : ℕ

abbrev pub is_nonempty : List Json → Bool
is_nonempty [] = false
is_nonempty (_ ∷ _) = true

-- the checks of the steps, against the number of failures that the summary reports
abbrev pub check_steps : ℕ → List Json → Result GateError (Unit {0})
check_steps reported steps = do
  require (is_nonempty steps) no_steps
  statuses ← statuses_at (part root "steps") 0 steps
  let computed = count_if (λ s. str_eq s "failed") statuses
  require (computed == 0) (failed_steps computed)
  require (computed == reported) count_mismatch

unfoldable pub validate_structured_conformance_result : Json → Result GateError Validated
validate_structured_conformance_result raw = do
  result ← object_at root (some raw)
  require (is_text "passed" (field_of result "status")) not_passed
  summary ← object_at (part root "summary") (field_of result "summary")
  reported ← count_at (part (part root "summary") "failed") (field_of summary "failed")
  require (reported == 0) failed_reported
  steps ← array_at (part root "steps") (field_of result "steps")
  check_steps reported steps
  case_count ← catalogue_case_count (field_of result "catalogue")
  ok (record { step_count = length steps; case_count = case_count })
