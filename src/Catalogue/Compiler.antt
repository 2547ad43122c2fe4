-- ===== src/Catalogue/Compiler.antt =====
-- `compile_test_plan` of conformance/catalogue.py: the parts of the compiler in the order in which it
-- calls them. The provenance of a catalogue, which is carried along, is left out.
pub mod Compiled
pub mod Order
use conformance_suite_v.Base.{
  String, Bool, true, false, not, ◌&&◌, ◌||◌, Option, none, some, List, [], ◌∷◌, map, Result, ok,
  err, ◌>>=◌, ◌>>◌, str_eq, if◌then◌else◌, elem, filter,
}
use conformance_suite_v.Base.Json.{Json}
use conformance_suite_v.Base.Dict.{Dict, get}
use conformance_suite_v.Catalogue.{
  EndpointRef, CatalogueTraceGroup, CatalogueTestCase, CatalogueError, other_catalogue,
  no_such_case, catalogue_cases_by_id,
}
use conformance_suite_v.Catalogue.Ordering.{ordered_case_ids}
use conformance_suite_v.Catalogue.Selection.{
  AssertionOverride, TestPlanSpec, DecisionReason, no_endpoint, ApplicabilityDecision, decide,
  directly_applicable, decisions_from, reject_invalid_deselection, reject_dependencies,
  validate_assertion_overrides, traceability_decision, no_reasons,
}
use conformance_suite_v.Catalogue.Capabilities.{
  ImplementedEndpoint, EndpointCapability, EndpointCapabilitySelection, capability_indexes,
  select_capabilities, ids_at_ref, ref_of, validate_capability_references,
}
use conformance_suite_v.Catalogue.RuntimeInputs.{RuntimeInputTrace, runtime_input_snapshot}

pub record CatalogueKey : Type 0 where
  pub standard : String
  pub version : String
  pub api : String

pub record TestCatalogue : Type 0 where
  pub key : CatalogueKey
  pub catalogue_version : String
  pub test_cases : List CatalogueTestCase
  pub capabilities : List EndpointCapability

-- The participant's specification, `TestPlanSpec` of the code: `Selection.TestPlanSpec` is what the
-- selection of cases reads of it.
pub record PlanRequest : Type 0 where
  pub catalogue_key : CatalogueKey
  pub security_profile : String
  pub implemented_endpoints : List ImplementedEndpoint
  pub runtime_inputs : Dict Json
  pub specification_version : Option String
  pub deselected_test_case_ids : List String
  pub assertion_overrides : List AssertionOverride

pub record CompilerTraceability : Type 0 where
  pub catalogue_key : CatalogueKey
  pub catalogue_version : String
  pub security_profile : String
  pub selected_endpoints : List ImplementedEndpoint
  pub selected_capabilities : List EndpointCapabilitySelection
  pub applicability_decisions : List ApplicabilityDecision
  pub generated_test_case_ids : List String
  pub runtime_input_snapshot : List RuntimeInputTrace
  pub non_certifying_reasons : List AssertionOverride

pub record CompiledTestPlan : Type 0 where
  pub catalogue_key : CatalogueKey
  pub catalogue_version : String
  pub security_profile : String
  pub test_cases : List CatalogueTestCase
  pub traceability : CompilerTraceability
  pub certifying : Bool
  pub skipped_test_cases : List CatalogueTestCase

abbrev pub same_key : CatalogueKey → CatalogueKey → Bool
same_key a b = str_eq a.standard b.standard && str_eq a.version b.version && str_eq a.api b.api

abbrev pub canonical_implemented_endpoint : ImplementedEndpoint → ImplementedEndpoint
canonical_implemented_endpoint e =
    if str_eq e.method "GET" && str_eq e.path "/open-banking/v4.0/aisp/product"
    then record {
      method = e.method;
      path = "/open-banking/v4.0/aisp/products";
      resource_group = e.resource_group;
      operation_id = none;
      capability_ids = [];
    }
    else e

abbrev pub canonical_endpoints : PlanRequest → List ImplementedEndpoint
canonical_endpoints spec = map canonical_implemented_endpoint spec.implemented_endpoints

-- what the selection of cases reads, with the references of the canonical endpoints
abbrev pub selection_spec : PlanRequest → TestPlanSpec
selection_spec spec = record {
  security_profile = spec.security_profile;
  specification_version = spec.specification_version;
  implemented_refs = map ref_of (canonical_endpoints spec);
  deselected_test_case_ids = spec.deselected_test_case_ids;
  assertion_overrides = spec.assertion_overrides;
}

abbrev pub found_case : String → Option CatalogueTestCase → Result CatalogueError CatalogueTestCase
found_case i none = err (no_such_case i)
found_case i (some c) = ok c

-- `tuple(cases_by_id[case_id] for case_id in ordered_ids)`
unfoldable pub cases_at :
    Dict CatalogueTestCase → List String → Result CatalogueError (List CatalogueTestCase)
cases_at cases [] = ok []
cases_at cases (i ∷ ids) = do
  first ← found_case i (get cases i)
  rest ← cases_at cases ids
  ok (first ∷ rest)

abbrev pub has_no_endpoint : Option ApplicabilityDecision → Bool
has_no_endpoint none = false
has_no_endpoint (some d) = is_no_endpoint d.reason
  where
    is_no_endpoint : DecisionReason → Bool
    is_no_endpoint no_endpoint = true
    is_no_endpoint _ = false

abbrev pub group_skips : Option CatalogueTraceGroup → Bool
group_skips none = false
group_skips (some g) = str_eq g.absence_behavior "skip"

-- the test of `skipped_cases`
abbrev pub is_skipped : Dict ApplicabilityDecision → List String → CatalogueTestCase → Bool
is_skipped decisions selected c =
    not (elem c.test_case_id selected)
    && has_no_endpoint (get decisions c.test_case_id)
    && (str_eq c.gate_absence_behavior "skip" || group_skips c.trace_group)

module _ (https_url_error : String → Option String) (catalogue : TestCatalogue)
    (spec : PlanRequest) where
  -- the plan, once all its parts are made
  abbrev pub plan_of :
      (EndpointRef → List String)
      → List EndpointCapabilitySelection
      → List String
      → Dict (List String)
      → List RuntimeInputTrace
      → List AssertionOverride
      → List CatalogueTestCase
      → CompiledTestPlan
  plan_of capabilities selections ordered edges snapshot reasons cases =
      let decisions =
        decisions_from (decide (selection_spec spec) capabilities) catalogue.test_cases [] in
      record {
        catalogue_key = catalogue.key;
        catalogue_version = catalogue.catalogue_version;
        security_profile = spec.security_profile;
        test_cases = cases;
        traceability = record {
          catalogue_key = catalogue.key;
          catalogue_version = catalogue.catalogue_version;
          security_profile = spec.security_profile;
          selected_endpoints = canonical_endpoints spec;
          selected_capabilities = selections;
          applicability_decisions =
              map (traceability_decision ordered edges spec.deselected_test_case_ids) decisions;
          generated_test_case_ids = ordered;
          runtime_input_snapshot = snapshot;
          non_certifying_reasons = reasons;
        };
        certifying = no_reasons reasons;
        skipped_test_cases = filter (is_skipped decisions ordered) catalogue.test_cases;
      }

  -- from the index of the cases on
  unfoldable pub compile_cases :
      Dict CatalogueTestCase
      → (EndpointRef → List String)
      → List EndpointCapabilitySelection
      → Result CatalogueError CompiledTestPlan
  compile_cases cases capabilities selections = do
    let direct_ids =
        directly_applicable (decide (selection_spec spec) capabilities) catalogue.test_cases
    reject_invalid_deselection spec.deselected_test_case_ids cases direct_ids
    (ordered, edges) ←
        ordered_case_ids cases spec.security_profile
          (filter (λ i. not (elem i spec.deselected_test_case_ids)) direct_ids)
    reject_dependencies (filter (λ i. elem i spec.deselected_test_case_ids) ordered)
    snapshot ← runtime_input_snapshot https_url_error spec.runtime_inputs cases ordered
    reasons ← validate_assertion_overrides cases ordered spec.assertion_overrides
    test_cases ← cases_at cases ordered
    ok (plan_of capabilities selections ordered edges snapshot reasons test_cases)

  unfoldable pub compile_catalogue : Result CatalogueError CompiledTestPlan
  unfolding compile_cases
  compile_catalogue = do
    cases ← catalogue_cases_by_id catalogue.test_cases
    (by_id, by_ref) ← capability_indexes catalogue.capabilities
    (selected, selections) ←
        select_capabilities by_id by_ref catalogue.capabilities 0 (canonical_endpoints spec) []
    validate_capability_references catalogue.test_cases by_id
    compile_cases cases (ids_at_ref selected) selections

  unfoldable pub compile_test_plan : Result CatalogueError CompiledTestPlan
  unfolding compile_catalogue
  compile_test_plan =
      if same_key catalogue.key spec.catalogue_key then compile_catalogue else err other_catalogue
