-- ===== src/Tests/Compiler.antt =====
-- The compilation of a small plan (conformance/catalogue.py).
use conformance_suite_v.Base.{
  String, ◌≡◌, ◌≢◌, refl, true, false, All, Option, none, some, List, [], ◌∷◌, ok, err, elem,
  filter, any, all,
}
use conformance_suite_v.Base.Json.{Json, null, str}
use conformance_suite_v.Base.Dict.{Dict, get, put, keys, values}
use conformance_suite_v.Base.Sort.{take}
use conformance_suite_v.Base.Text.{sorted_set}
use conformance_suite_v.Catalogue.{
  EndpointRef, RuntimeInputRequirement, CatalogueTestCase, missing_input, other_catalogue,
  catalogue_cases_by_id, applies_to,
}
use conformance_suite_v.Catalogue.Ordering.{ordered_case_ids, visit, visit_each}
use conformance_suite_v.Catalogue.Selection.{
  directly_applicable, decide, decisions_from, reject_invalid_deselection,
  validate_assertion_overrides, capabilities_for_refs,
}
use conformance_suite_v.Catalogue.Selection.Compiled.{find_case}
use conformance_suite_v.Catalogue.Capabilities.{
  capability_indexes, select_capabilities, ids_at_ref, validate_capability_references, is_blank,
  check_explicit, at_ref, put_ref,
}
use conformance_suite_v.Catalogue.Requirements.{combine_requirements, combine_requirement, set}
use conformance_suite_v.Catalogue.RuntimeInputs.{
  RuntimeInputTrace, validate_runtime_input_value, trace_input, runtime_input_snapshot,
}
use conformance_suite_v.Catalogue.Compiler.{
  CatalogueKey, TestCatalogue, PlanRequest, CompiledTestPlan, plan_of, cases_at, compile_test_plan,
}
use conformance_suite_v.Catalogue.Compiler.Order.{ids_of, compile_test_plan_orders}
use conformance_suite_v.Catalogue.Compiler.Compiled.{
  compile_test_plan_hides, compile_test_plan_gives,
}

abbrev products : EndpointRef
products = record { method = "GET"; path = "/open-banking/v4.0/aisp/products" }

abbrev balances : EndpointRef
balances = record { method = "GET"; path = "/balances" }

abbrev secret : RuntimeInputRequirement
secret = record {
  input_id = "psu";
  input_type = "string";
  label = "PSU";
  required = true;
  sensitive = true;
  description = none;
  source = "plan";
}

abbrev case_at : String → EndpointRef → List RuntimeInputRequirement → String → CatalogueTestCase
case_at i r inputs absence = record {
  test_case_id = i;
  name = i;
  applicability = record {
    security_profiles = record { profiles = "all" ∷ [] };
    endpoint_refs = r ∷ [];
    required_capability_ids = [];
    specification_versions = [];
  };
  mandatory = true;
  dependencies = [];
  assertion_ids = [];
  runtime_input_requirements = inputs;
  trace_group = none;
  gate_absence_behavior = absence;
}

abbrev pub listing : CatalogueTestCase
listing = case_at "list" products (secret ∷ []) "skip"

abbrev pub reading : CatalogueTestCase
reading = case_at "read" balances [] "skip"

abbrev accounts : CatalogueKey
accounts = record { standard = "open-banking"; version = "v4.0"; api = "ais" }

abbrev catalogue : TestCatalogue
catalogue = record {
  key = accounts;
  catalogue_version = "1";
  test_cases = listing ∷ reading ∷ case_at "hide" balances [] "exclude" ∷ [];
  capabilities = [];
}

abbrev request : CatalogueKey → Dict Json → PlanRequest
request key inputs = record {
  catalogue_key = key;
  security_profile = "fapi2";
  implemented_endpoints =
      record {
        method = "GET";
        path = "/open-banking/v4.0/aisp/product";
        resource_group = "products";
        operation_id = none;
        capability_ids = [];
      }
      ∷ [];
  runtime_inputs = inputs;
  specification_version = none;
  deselected_test_case_ids = [];
  assertion_overrides = [];
}

abbrev any_address : String → Option String
any_address s = none

abbrev full : PlanRequest
full = request accounts (("psu", str "12345") ∷ [])

abbrev pub secret_trace : RuntimeInputTrace
secret_trace = record {
  input_id = "psu";
  input_type = "string";
  required = true;
  sensitive = true;
  provided = true;
  value = none;
}

-- the old path of the products applies to the case, and the case that is left out is skipped
abbrev pub plan : CompiledTestPlan
plan =
    record (plan_of any_address catalogue full (ids_at_ref []) [] ("list" ∷ []) []
      (secret_trace ∷ []) [] (listing ∷ [])) { skipped_test_cases = reading ∷ [] }

plan_compiled : compile_test_plan any_address catalogue full ≡ ok plan
unfolding compile_test_plan catalogue_cases_by_id get put capability_indexes select_capabilities
    check_explicit validate_capability_references reject_invalid_deselection ordered_case_ids visit
    visit_each filter keys elem directly_applicable decide applies_to all any at_ref put_ref
    ids_at_ref values combine_requirements combine_requirement set runtime_input_snapshot
    trace_input is_blank cases_at decisions_from validate_assertion_overrides capabilities_for_refs
    sorted_set
plan_compiled = refl

plan_without_input :
    compile_test_plan any_address catalogue (request accounts []) ≡ err (missing_input "psu")
unfolding compile_test_plan catalogue_cases_by_id get put capability_indexes select_capabilities
    check_explicit validate_capability_references reject_invalid_deselection ordered_case_ids visit
    visit_each filter keys elem directly_applicable decide applies_to all any at_ref put_ref
    ids_at_ref values combine_requirements combine_requirement set runtime_input_snapshot
    trace_input is_blank cases_at decisions_from validate_assertion_overrides capabilities_for_refs
    sorted_set
plan_without_input = refl

plan_elsewhere :
    compile_test_plan any_address catalogue
      (request (record { standard = "open-banking"; version = "v3.1"; api = "ais" }) [])
    ≡ err other_catalogue
unfolding compile_test_plan
plan_elsewhere = refl

compile_test_plan_hides_example : (secret_trace.sensitive ≡ true) × (secret_trace.value ≡ none)
compile_test_plan_hides_example =
    compile_test_plan_hides any_address catalogue full plan 0 0 listing secret plan_compiled refl
      refl 0 secret_trace refl refl refl

compile_test_plan_gives_example :
    (value : Json) × (get full.runtime_inputs "psu" ≡ some value)
    × (value ≢ null)
    × (validate_runtime_input_value any_address secret value ≡ ok tt)
compile_test_plan_gives_example =
    compile_test_plan_gives any_address catalogue full plan 0 0 listing secret plan_compiled refl
      refl refl refl

abbrev following : CatalogueTestCase
following = record (case_at "follow" products [] "skip") { dependencies = "list" ∷ [] }

-- the case that stands first depends on the second
abbrev chained : TestCatalogue
chained = record catalogue { test_cases = following ∷ listing ∷ [] }

abbrev chained_plan : CompiledTestPlan
chained_plan =
    plan_of any_address chained full (ids_at_ref []) [] ("list" ∷ "follow" ∷ [])
      (("list", "follow" ∷ []) ∷ []) (secret_trace ∷ []) [] (listing ∷ following ∷ [])

chained_compiled : compile_test_plan any_address chained full ≡ ok chained_plan
unfolding compile_test_plan catalogue_cases_by_id get put capability_indexes select_capabilities
    check_explicit validate_capability_references reject_invalid_deselection ordered_case_ids visit
    visit_each filter keys elem directly_applicable decide applies_to all any at_ref put_ref
    ids_at_ref values combine_requirements combine_requirement set runtime_input_snapshot
    trace_input is_blank cases_at decisions_from validate_assertion_overrides capabilities_for_refs
    sorted_set
chained_compiled = refl

compile_test_plan_orders_example :
    (find_case chained.test_cases "follow" ≡ some following)
    × (elem "follow" full.deselected_test_case_ids ≡ false)
    × (elem "follow" (ids_of (take 1 chained_plan.test_cases)) ≡ false)
    × All (λ d. elem d (ids_of (take 1 chained_plan.test_cases)) ≡ true) following.dependencies
compile_test_plan_orders_example =
    compile_test_plan_orders any_address chained full chained_plan 1 following chained_compiled refl
