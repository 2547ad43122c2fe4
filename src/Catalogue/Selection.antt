-- ===== src/Catalogue/Selection.antt =====
-- The selection of cases in `compile_test_plan` of conformance/catalogue.py: which cases apply, which
-- of them the participant deselects, and what depends on the rest. The capabilities that the
-- participant selected for an endpoint are an argument.
pub mod Applicable
pub mod Compiled
use conformance_suite_v.Base.{
  String, Bool, true, false, not, ◌&&◌, ◌||◌, Option, none, some, List, [], ◌∷◌, ◌++◌, map, Result,
  ok, err, ◌>>=◌, ◌>>◌, str_eq, if◌then◌else◌, elem, filter, all, any,
}
use conformance_suite_v.Base.Text.{sorted_set}
use conformance_suite_v.Base.Dict.{Dict, get, put, has}
use conformance_suite_v.Catalogue.{
  EndpointRef, TestCaseApplicability, CatalogueTestCase, CatalogueError, unknown_deselection,
  inapplicable_deselection, mandatory_deselection, dependency_deselection, uncompiled_override,
  unknown_override, applies_to, catalogue_cases_by_id,
}
use conformance_suite_v.Catalogue.Ordering.{ordered_case_ids}

pub record AssertionOverride : Type 0 where
  pub test_case_id : String
  pub assertion_id : String
  pub reason : String

pub record TestPlanSpec : Type 0 where
  pub security_profile : String
  pub specification_version : Option String
  pub implemented_refs : List EndpointRef
  pub deselected_test_case_ids : List String
  pub assertion_overrides : List AssertionOverride

-- the texts that say why a case is selected or not, with the values that they contain
pub data DecisionReason : Type 0 where
  other_profile : String → DecisionReason
  other_version : Option String → DecisionReason
  no_endpoint : DecisionReason
  missing_capabilities : List String → DecisionReason
  applicable : DecisionReason
  applicable_with_capabilities : DecisionReason
  deselected_by_participant : DecisionReason
  included_as_dependency : DecisionReason

pub record ApplicabilityDecision : Type 0 where
  pub test_case_id : String
  pub selected : Bool
  pub reason : DecisionReason
  pub dependency_of : List String

abbrev pub same_ref : EndpointRef → EndpointRef → Bool
same_ref a b = str_eq a.method b.method && str_eq a.path b.path

-- `refs.issubset(implemented)`
abbrev pub is_implemented : List EndpointRef → EndpointRef → Bool
is_implemented implemented r = any (same_ref r) implemented

abbrev pub is_subset : List EndpointRef → List EndpointRef → Bool
is_subset refs implemented = all (is_implemented implemented) refs

-- `_test_case_applies_to_specification_version`
abbrev pub applies_to_version : CatalogueTestCase → Option String → Bool
applies_to_version c none = true
applies_to_version c (some version) = version_listed c.applicability.specification_versions
  where
    version_listed : List String → Bool
    version_listed [] = true
    version_listed (v ∷ vs) = elem version (v ∷ vs)

-- `_selected_capability_ids_for_refs`
unfoldable pub capabilities_for_refs : (EndpointRef → List String) → List EndpointRef → List String
capabilities_for_refs capabilities [] = []
capabilities_for_refs capabilities (r ∷ refs) =
    capabilities r ++ capabilities_for_refs capabilities refs

abbrev pub decision : CatalogueTestCase → Bool → DecisionReason → ApplicabilityDecision
decision c selected reason = record {
  test_case_id = c.test_case_id;
  selected = selected;
  reason = reason;
  dependency_of = [];
}

-- a case whose endpoints are implemented: `required` and `missing` are its capabilities
abbrev pub decide_capabilities :
    CatalogueTestCase → List String → List String → ApplicabilityDecision
decide_capabilities c required (i ∷ missing) =
    decision c false (missing_capabilities (sorted_set (i ∷ missing)))
decide_capabilities c [] [] = decision c true applicable
decide_capabilities c (i ∷ required) [] = decision c true applicable_with_capabilities

abbrev pub missing_of : (EndpointRef → List String) → TestCaseApplicability → List String
missing_of capabilities a =
    filter (λ i. not (elem i (capabilities_for_refs capabilities a.endpoint_refs)))
      a.required_capability_ids

abbrev pub decide_endpoints :
    TestPlanSpec
    → (EndpointRef → List String)
    → CatalogueTestCase
    → List EndpointRef
    → ApplicabilityDecision
decide_endpoints spec capabilities c [] = decision c true applicable
decide_endpoints spec capabilities c (r ∷ refs) =
    if is_subset (r ∷ refs) spec.implemented_refs
    then decide_capabilities c c.applicability.required_capability_ids
        (missing_of capabilities c.applicability)
    else decision c false no_endpoint

-- the body of the loop of `_directly_applicable_case_ids`
unfoldable pub decide :
    TestPlanSpec → (EndpointRef → List String) → CatalogueTestCase → ApplicabilityDecision
decide spec capabilities c =
    if not (applies_to c.applicability.security_profiles spec.security_profile)
    then decision c false (other_profile spec.security_profile)
    else if not (applies_to_version c spec.specification_version)
    then decision c false (other_version spec.specification_version)
    else decide_endpoints spec capabilities c c.applicability.endpoint_refs

-- the set of selected cases, in the order in which they are added
unfoldable pub directly_applicable :
    (CatalogueTestCase → ApplicabilityDecision) → List CatalogueTestCase → List String
directly_applicable decide_case [] = []
directly_applicable decide_case (c ∷ cs) =
    let rest = directly_applicable decide_case cs in
    if (decide_case c).selected then c.test_case_id ∷ rest else rest

-- the decisions by case
unfoldable pub decisions_from :
    (CatalogueTestCase → ApplicabilityDecision)
    → List CatalogueTestCase
    → Dict ApplicabilityDecision
    → Dict ApplicabilityDecision
decisions_from decide_case [] d = d
decisions_from decide_case (c ∷ cs) d =
    decisions_from decide_case cs (put d c.test_case_id (decide_case c))

abbrev pub reject_one :
    List String → String → Option CatalogueTestCase → Result CatalogueError (Unit {0})
reject_one direct_ids i none = err (unknown_deselection i)
reject_one direct_ids i (some c) =
    if not (elem i direct_ids)
    then err (inapplicable_deselection i)
    else if c.mandatory
    then err (mandatory_deselection i)
    else ok tt

-- `_reject_invalid_deselection`
unfoldable pub reject_invalid_deselection :
    List String → Dict CatalogueTestCase → List String → Result CatalogueError (Unit {0})
reject_invalid_deselection [] cases direct_ids = ok tt
reject_invalid_deselection (i ∷ ids) cases direct_ids = do
  reject_one direct_ids i (get cases i)
  reject_invalid_deselection ids cases direct_ids

abbrev pub reject_dependencies : List String → Result CatalogueError (Unit {0})
reject_dependencies [] = ok tt
reject_dependencies (i ∷ ids) = err (dependency_deselection (sorted_set (i ∷ ids)))

abbrev pub assertions_of : Option CatalogueTestCase → List String
assertions_of none = []
assertions_of (some c) = c.assertion_ids

-- `_validate_assertion_overrides`: the reasons are texts that name the overrides
unfoldable pub validate_assertion_overrides :
    Dict CatalogueTestCase
    → List String
    → List AssertionOverride
    → Result CatalogueError (List AssertionOverride)
validate_assertion_overrides cases ordered [] = ok []
validate_assertion_overrides cases ordered (o ∷ overrides) =
    let rest = validate_assertion_overrides cases ordered overrides in
    if not (elem o.test_case_id ordered)
    then err (uncompiled_override o.test_case_id)
    else if not (elem o.assertion_id (assertions_of (get cases o.test_case_id)))
    then err (unknown_override o.test_case_id o.assertion_id)
    else do reasons ← rest; ok (o ∷ reasons)

abbrev or_none : Option (List String) → List String
or_none none = []
or_none (some l) = sorted_set l

abbrev pub dependency_reason : List String → ApplicabilityDecision → DecisionReason
dependency_reason [] d = d.reason
dependency_reason (_ ∷ _) d = if d.selected then d.reason else included_as_dependency

-- `_traceability_decisions`
abbrev pub traceability_decision :
    List String
    → Dict (List String)
    → List String
    → String × ApplicabilityDecision
    → ApplicabilityDecision
traceability_decision selected edges deselected (i, d) =
    let dependency_of = or_none (get edges i) in
    if elem i deselected
    then record {
      test_case_id = i;
      selected = false;
      reason = deselected_by_participant;
      dependency_of = dependency_of;
    }
    else if elem i selected
    then record {
      test_case_id = i;
      selected = true;
      reason = dependency_reason dependency_of d;
      dependency_of = dependency_of;
    }
    else d

-- what the selection gives to the compiled plan
pub record Selection : Type 0 where
  pub generated_test_case_ids : List String
  pub applicability_decisions : List ApplicabilityDecision
  pub non_certifying_reasons : List AssertionOverride
  pub certifying : Bool

abbrev pub no_reasons : List AssertionOverride → Bool
no_reasons [] = true
no_reasons (_ ∷ _) = false

unfoldable pub compile_selection :
    List CatalogueTestCase
    → TestPlanSpec
    → (EndpointRef → List String)
    → Result CatalogueError Selection
compile_selection test_cases spec capabilities = do
  cases ← catalogue_cases_by_id test_cases
  let direct_ids = directly_applicable (decide spec capabilities) test_cases
  let deselected = spec.deselected_test_case_ids
  reject_invalid_deselection deselected cases direct_ids
  (ordered, edges) ←
      ordered_case_ids cases spec.security_profile
        (filter (λ i. not (elem i deselected)) direct_ids)
  reject_dependencies (filter (λ i. elem i deselected) ordered)
  reasons ← validate_assertion_overrides cases ordered spec.assertion_overrides
  ok (record {
    generated_test_case_ids = ordered;
    applicability_decisions =
        map (traceability_decision ordered edges deselected)
          (decisions_from (decide spec capabilities) test_cases []);
    non_certifying_reasons = reasons;
    certifying = no_reasons reasons;
  })
