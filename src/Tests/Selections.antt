-- ===== src/Tests/Selections.antt =====
-- The selection of catalogue cases (conformance/catalogue.py) for small plans.
use conformance_suite_v.Base.{
  String, ◌≡◌, refl, ◌↔◌, Bool, true, false, not, ◌&&◌, none, some, List, [], ◌∷◌, ok, err, elem,
  filter, all, any,
}
use conformance_suite_v.Base.Dict.{get, put, keys}
use conformance_suite_v.Base.Text.{sorted_set}
use conformance_suite_v.Catalogue.{
  EndpointRef, CatalogueTestCase, applies_to, add_cases, catalogue_cases_by_id,
  dependency_deselection,
}
use conformance_suite_v.Catalogue.Ordering.{ordered_case_ids}
use conformance_suite_v.Catalogue.Selection.{
  TestPlanSpec, Selection, decide, applicable, no_endpoint, deselected_by_participant,
  directly_applicable, decisions_from, reject_invalid_deselection, validate_assertion_overrides,
  compile_selection,
}
use conformance_suite_v.Catalogue.Selection.Applicable.{is_applicable, decide-is_applicable}
use conformance_suite_v.Catalogue.Selection.Compiled.{
  find_case, compile_selection-applicable, compile_selection-deselected,
  compile_selection-certifying,
}

abbrev accounts : EndpointRef
accounts = record { method = "GET"; path = "/accounts" }

abbrev balances : EndpointRef
balances = record { method = "GET"; path = "/balances" }

abbrev case_at : String → List EndpointRef → Bool → List String → CatalogueTestCase
case_at i refs mandatory deps = record {
  test_case_id = i;
  name = i;
  applicability = record {
    security_profiles = record { profiles = "fapi2" ∷ [] };
    endpoint_refs = refs;
    required_capability_ids = [];
    specification_versions = [];
  };
  mandatory = mandatory;
  dependencies = deps;
  assertion_ids = [];
  runtime_input_requirements = [];
  trace_group = none;
  gate_absence_behavior = "exclude";
}

abbrev catalogue : List CatalogueTestCase
catalogue =
    case_at "list" (accounts ∷ []) true ("token" ∷ [])
    ∷ case_at "token" [] false []
    ∷ case_at "extra" (accounts ∷ []) false []
    ∷ case_at "balance" (balances ∷ []) true []
    ∷ []

abbrev spec_without : List String → TestPlanSpec
spec_without deselected = record {
  security_profile = "fapi2";
  specification_version = none;
  implemented_refs = accounts ∷ [];
  deselected_test_case_ids = deselected;
  assertion_overrides = [];
}

abbrev no_capabilities : EndpointRef → List String
no_capabilities _ = []

abbrev selection : Selection
selection = record {
  generated_test_case_ids = "token" ∷ "list" ∷ [];
  applicability_decisions =
      record { test_case_id = "list"; selected = true; reason = applicable; dependency_of = [] }
      ∷ record {
        test_case_id = "token";
        selected = true;
        reason = applicable;
        dependency_of = "list" ∷ [];
      }
      ∷ record {
        test_case_id = "extra";
        selected = false;
        reason = deselected_by_participant;
        dependency_of = [];
      }
      ∷ record {
        test_case_id = "balance";
        selected = false;
        reason = no_endpoint;
        dependency_of = [];
      }
      ∷ [];
  non_certifying_reasons = [];
  certifying = true;
}

selects : compile_selection catalogue (spec_without ("extra" ∷ [])) no_capabilities ≡ ok selection
unfolding compile_selection catalogue_cases_by_id add_cases decide directly_applicable
    decisions_from reject_invalid_deselection validate_assertion_overrides ordered_case_ids
    applies_to get put keys elem filter all any sorted_set
selects = refl

keeps_dependency :
    compile_selection catalogue (spec_without ("token" ∷ [])) no_capabilities
    ≡ err (dependency_deselection ("token" ∷ []))
unfolding compile_selection catalogue_cases_by_id add_cases decide directly_applicable
    decisions_from reject_invalid_deselection validate_assertion_overrides ordered_case_ids
    applies_to get put keys elem filter all any sorted_set
keeps_dependency = refl

extra_found : find_case catalogue "extra" ≡ some (case_at "extra" (accounts ∷ []) false [])
unfolding find_case
extra_found = refl

extra_applies :
    is_applicable
      (spec_without ("extra" ∷ []))
      no_capabilities
      (case_at "extra" (accounts ∷ []) false [])
    ≡ true
unfolding applies_to elem all any
extra_applies = refl

decide-is_applicable_case :
    (decide (spec_without []) no_capabilities (case_at "balance" (balances ∷ []) true [])).selected
    ≡ is_applicable (spec_without []) no_capabilities (case_at "balance" (balances ∷ []) true [])
decide-is_applicable_case =
    decide-is_applicable (spec_without []) no_capabilities
      (case_at "balance" (balances ∷ []) true [])

compile_selection-applicable_example :
    (elem "extra" selection.generated_test_case_ids ≡ not (elem "extra" ("extra" ∷ [])))
    × ((false && elem "extra" ("extra" ∷ [])) ≡ false)
compile_selection-applicable_example =
    compile_selection-applicable catalogue (spec_without ("extra" ∷ [])) no_capabilities selection
      "extra" (case_at "extra" (accounts ∷ []) false []) selects extra_found extra_applies

compile_selection-deselected_example :
    (elem "extra" selection.generated_test_case_ids && elem "extra" ("extra" ∷ [])) ≡ false
compile_selection-deselected_example =
    compile_selection-deselected catalogue (spec_without ("extra" ∷ [])) no_capabilities selection
      "extra" selects

compile_selection-certifying_case :
    (selection.non_certifying_reasons ≡ (spec_without ("extra" ∷ [])).assertion_overrides)
    × ((selection.certifying ≡ true) ↔ ((spec_without ("extra" ∷ [])).assertion_overrides ≡ []))
compile_selection-certifying_case =
    compile_selection-certifying catalogue (spec_without ("extra" ∷ [])) no_capabilities selection
      selects
