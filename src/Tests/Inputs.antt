-- ===== src/Tests/Inputs.antt =====
-- The runtime inputs of two small cases (conformance/catalogue.py).
use conformance_suite_v.Base.{
  String, ◌≡◌, refl, Bool, true, false, Option, none, some, List, [], ◌∷◌, ok, err, elem, filter,
  any,
}
use conformance_suite_v.Base.Json.{Json, null, num, str, integer}
use conformance_suite_v.Base.Dict.{Dict, get, put, keys}
use conformance_suite_v.Base.Text.{sorted_set}
use conformance_suite_v.Catalogue.{
  RuntimeInputRequirement, CatalogueTestCase, conflicting_input_types, unsupported_header_inputs,
  missing_input, refused_address, no_such_case,
}
use conformance_suite_v.Catalogue.Capabilities.{is_blank}
use conformance_suite_v.Catalogue.Requirements.{
  set, combine_requirement, combine_requirements, combined_runtime_requirements,
}
use conformance_suite_v.Catalogue.Requirements.Combined.{
  merge_cases, values_of, combined_runtime_requirements-merge_cases,
}
use conformance_suite_v.Catalogue.RuntimeInputs.{
  strip, RuntimeInputTrace, trace_input, runtime_input_snapshot,
}

abbrev input : String → String → Bool → Bool → Option String → RuntimeInputRequirement
input i type required sensitive description = record {
  input_id = i;
  input_type = type;
  label = i;
  required = required;
  sensitive = sensitive;
  description = description;
  source = "plan";
}

abbrev case_with : String → List RuntimeInputRequirement → CatalogueTestCase
case_with i inputs = record {
  test_case_id = i;
  name = i;
  applicability = record {
    security_profiles = record { profiles = "all" ∷ [] };
    endpoint_refs = [];
    required_capability_ids = [];
    specification_versions = [];
  };
  mandatory = false;
  dependencies = [];
  assertion_ids = [];
  runtime_input_requirements = inputs;
  trace_group = none;
  gate_absence_behavior = "exclude";
}

abbrev open_address : RuntimeInputRequirement
open_address = input "callback" "url" false false (some "")

abbrev secret_address : RuntimeInputRequirement
secret_address = input "callback" "url" true true (some "where the bank calls back")

abbrev both_address : RuntimeInputRequirement
both_address = input "callback" "url" true true (some "where the bank calls back")

abbrev amount : RuntimeInputRequirement
amount = input "amount" "number" false false none

abbrev listing : CatalogueTestCase
listing = case_with "list" (open_address ∷ amount ∷ [])

abbrev payment : CatalogueTestCase
payment = case_with "pay" (secret_address ∷ [])

abbrev cases : Dict CatalogueTestCase
cases =
    ("list", listing)
    ∷ ("pay", payment)
    ∷ ("odd", case_with "odd" (input "amount" "json" true false none ∷ []))
    ∷ []

abbrev compiled : List String
compiled = "list" ∷ "pay" ∷ []

-- only addresses with no blanks around them pass
abbrev only_bank : String → Option String
only_bank s = if_bank (elem s ("https://bank" ∷ []))
  where
    if_bank : Bool → Option String
    if_bank true = none
    if_bank false = some "refused"

abbrev supplied : Dict Json
supplied =
    ("callback", str " https://bank ") ∷ ("amount", num (integer false 5)) ∷ ("unused", null) ∷ []

abbrev callback_trace : RuntimeInputTrace
callback_trace = record {
  input_id = "callback";
  input_type = "url";
  required = true;
  sensitive = true;
  provided = true;
  value = none;
}

abbrev traces : List RuntimeInputTrace
traces =
    callback_trace
    ∷ record {
      input_id = "amount";
      input_type = "number";
      required = false;
      sensitive = false;
      provided = true;
      value = some (num (integer false 5));
    }
    ∷ []

strip_both : strip " a b " ≡ "a b"
unfolding strip
strip_both = refl

combined_two : combined_runtime_requirements cases compiled ≡ ok (both_address ∷ amount ∷ [])
unfolding combined_runtime_requirements get combine_requirements combine_requirement elem put set
combined_two = refl

combined_conflict :
    combined_runtime_requirements cases ("list" ∷ "odd" ∷ [])
    ≡ err (conflicting_input_types "amount")
unfolding combined_runtime_requirements get combine_requirements combine_requirement elem put set
combined_conflict = refl

combined_unknown :
    combined_runtime_requirements cases ("list" ∷ "gone" ∷ []) ≡ err (no_such_case "gone")
unfolding combined_runtime_requirements get combine_requirements combine_requirement elem put set
combined_unknown = refl

snapshot_taken : runtime_input_snapshot only_bank supplied cases compiled ≡ ok traces
unfolding runtime_input_snapshot get combine_requirements combine_requirement elem put filter keys
    any set trace_input is_blank strip sorted_set
snapshot_taken = refl

snapshot_missing :
    runtime_input_snapshot only_bank (("callback", null) ∷ []) cases compiled
    ≡ err (missing_input "callback")
unfolding runtime_input_snapshot get combine_requirements combine_requirement elem put filter keys
    any set trace_input is_blank strip sorted_set
snapshot_missing = refl

snapshot_refused :
    runtime_input_snapshot only_bank (("callback", str "http://bank") ∷ []) cases compiled
    ≡ err (refused_address "refused")
unfolding runtime_input_snapshot get combine_requirements combine_requirement elem put filter keys
    any set trace_input is_blank strip sorted_set
snapshot_refused = refl

snapshot_headers :
    runtime_input_snapshot only_bank
      (("xFapiAuthDate", null) ∷ ("idempotencyKey", null) ∷ [])
      cases
      compiled
    ≡ err (unsupported_header_inputs ("idempotencyKey" ∷ "xFapiAuthDate" ∷ []))
unfolding runtime_input_snapshot get combine_requirements combine_requirement elem put filter keys
    any set trace_input is_blank strip sorted_set
snapshot_headers = refl

combined_runtime_requirements-merge_cases_example :
    combined_runtime_requirements cases compiled ≡ values_of (merge_cases cases [] compiled)
combined_runtime_requirements-merge_cases_example =
    combined_runtime_requirements-merge_cases cases compiled
