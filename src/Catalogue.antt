-- ===== src/Catalogue.antt =====
-- conformance/catalogue.py: the versioned catalogue of test cases, and the plan that a participant
-- compiles it with. Records hold the fields that the compiler reads.
pub mod Ordering
pub mod Selection
pub mod Capabilities
pub mod Requirements
pub mod RuntimeInputs
pub mod Compiler
pub mod Merge
use conformance_suite_v.Base.{
  ℕ, String, Bool, true, false, not, ◌&&◌, ◌||◌, Option, none, some, List, [], ◌∷◌, Result, ok, err,
  str_eq, if◌then◌else◌, elem,
}
use conformance_suite_v.Base.Json.{Json}
use conformance_suite_v.Base.Dict.{Dict, get, put, has}

pub record EndpointRef : Type 0 where
  pub method : String
  pub path : String

pub record SecurityProfileApplicability : Type 0 where
  pub profiles : List String

-- `applies_to`
unfoldable pub applies_to : SecurityProfileApplicability → String → Bool
applies_to a profile = elem "all" a.profiles || elem profile a.profiles

pub record TestCaseApplicability : Type 0 where
  pub security_profiles : SecurityProfileApplicability
  pub endpoint_refs : List EndpointRef
  pub required_capability_ids : List String
  pub specification_versions : List String

pub record RuntimeInputRequirement : Type 0 where
  pub input_id : String
  pub input_type : String
  pub label : String
  pub required : Bool
  pub sensitive : Bool
  pub description : Option String
  pub source : String

pub record CatalogueTraceGroup : Type 0 where
  pub group_id : String
  pub absence_behavior : String

pub record CatalogueTestCase : Type 0 where
  pub test_case_id : String
  pub name : String
  pub applicability : TestCaseApplicability
  pub mandatory : Bool
  pub dependencies : List String
  pub assertion_ids : List String
  pub runtime_input_requirements : List RuntimeInputRequirement
  pub trace_group : Option CatalogueTraceGroup
  pub gate_absence_behavior : String

-- the exceptions of the compiler, each with the identifiers that its message names, and Python's
-- own limit on the depth of calls
pub data CatalogueError : Type 0 where
  duplicate_case : String → CatalogueError
  missing_dependency : String → CatalogueError
  dependency_cycle : String → CatalogueError
  inapplicable_dependency : String → CatalogueError
  unknown_deselection : String → CatalogueError
  inapplicable_deselection : String → CatalogueError
  mandatory_deselection : String → CatalogueError
  dependency_deselection : List String → CatalogueError
  uncompiled_override : String → CatalogueError
  unknown_override : String → String → CatalogueError
  blank_capability_id : CatalogueError
  blank_capability_label : String → CatalogueError
  blank_capability_description : String → CatalogueError
  capability_without_endpoints : String → CatalogueError
  duplicate_capability : String → CatalogueError
  unknown_capability : ℕ → String → CatalogueError
  inapplicable_capability : String → String → String → CatalogueError
  capabilities_without_endpoints : String → CatalogueError
  unknown_case_capability : String → String → CatalogueError
  capability_outside_case : String → String → CatalogueError
  unsupported_input_type : String → String → CatalogueError
  conflicting_input_types : String → CatalogueError
  conflicting_input_sources : String → CatalogueError
  unsupported_header_inputs : List String → CatalogueError
  input_not_from_plan : String → String → CatalogueError
  missing_input : String → CatalogueError
  not_a_text : String → CatalogueError
  not_an_address : String → CatalogueError
  refused_address : String → CatalogueError
  not_a_number : String → CatalogueError
  not_a_boolean : String → CatalogueError
  other_catalogue : CatalogueError
  duplicated_across_catalogues : String → CatalogueError
  conflicting_trace_types : String → CatalogueError
  conflicting_trace_values : String → CatalogueError
  -- `IndexError`
  no_such_position : CatalogueError
  -- `KeyError`
  no_such_case : String → CatalogueError
  recursion_limit : CatalogueError

unfoldable pub add_cases :
    List CatalogueTestCase → Dict CatalogueTestCase → Result CatalogueError (Dict CatalogueTestCase)
add_cases [] cases = ok cases
add_cases (c ∷ more) cases =
    let rest = add_cases more (put cases c.test_case_id c) in
    if has cases c.test_case_id then err (duplicate_case c.test_case_id) else rest

-- `_catalogue_cases_by_id`
unfoldable pub catalogue_cases_by_id :
    List CatalogueTestCase → Result CatalogueError (Dict CatalogueTestCase)
unfolding add_cases
catalogue_cases_by_id cases = add_cases cases []
