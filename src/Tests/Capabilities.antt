-- ===== src/Tests/Capabilities.antt =====
-- Capabilities of endpoints (conformance/catalogue.py) in a small catalogue.
use conformance_suite_v.Base.{
  String, ◌≡◌, refl, true, false, none, List, [], ◌∷◌, ok, err, is_ok, all, any, elem, filter,
}
use conformance_suite_v.Base.Dict.{Dict, get, put, has, values}
use conformance_suite_v.Catalogue.{
  EndpointRef, CatalogueTestCase, inapplicable_capability, duplicate_capability,
}
use conformance_suite_v.Catalogue.Capabilities.{
  EndpointCapability, ImplementedEndpoint, RefDict, at_ref, add_at_ref, add_at_refs, is_blank,
  index_capabilities, capability_indexes, check_explicit, put_ref, select_capabilities,
  validate_capability_references,
}
use conformance_suite_v.Catalogue.Capabilities.Indexes.{offers, capability_indexes-offers}
use conformance_suite_v.Catalogue.Capabilities.Selected.{
  names_own, applies_within, is_ok-select_capabilities, is_ok-validate_capability_references,
}

abbrev accounts : EndpointRef
accounts = record { method = "GET"; path = "/accounts" }

abbrev payments : EndpointRef
payments = record { method = "POST"; path = "/payments" }

abbrev paging : EndpointCapability
paging = record {
  capability_id = "paging";
  label = "Paging";
  description = "Pages of results";
  required = false;
  endpoint_refs = accounts ∷ [];
}

abbrev signing : EndpointCapability
signing = record {
  capability_id = "signing";
  label = "Signing";
  description = "Signed requests";
  required = true;
  endpoint_refs = payments ∷ accounts ∷ [];
}

abbrev known : List EndpointCapability
known = paging ∷ signing ∷ []

abbrev by_id : Dict EndpointCapability
by_id = ("paging", paging) ∷ ("signing", signing) ∷ []

abbrev by_ref : RefDict (Dict EndpointCapability)
by_ref =
    (accounts, ("paging", paging) ∷ ("signing", signing) ∷ [])
    ∷ (payments, ("signing", signing) ∷ [])
    ∷ []

indexed : capability_indexes known ≡ ok (by_id, by_ref)
unfolding capability_indexes index_capabilities add_at_refs add_at_ref is_blank get put
indexed = refl

duplicate : capability_indexes (paging ∷ paging ∷ []) ≡ err (duplicate_capability "paging")
unfolding capability_indexes index_capabilities add_at_refs add_at_ref is_blank get put
duplicate = refl

abbrev endpoint : String → String → List String → ImplementedEndpoint
endpoint method path ids = record {
  method = method;
  path = path;
  resource_group = "";
  operation_id = none;
  capability_ids = ids;
}

abbrev nothing_yet : RefDict (List String)
nothing_yet = []

selected :
    select_capabilities by_id by_ref known 0 (endpoint "POST" "/payments" [] ∷ []) nothing_yet
    ≡ ok (
      (payments, "signing" ∷ []) ∷ [],
      record {
        method = "POST";
        path = "/payments";
        capability_id = "signing";
        label = "Signing";
        required = true;
      }
          ∷ [],
    )
unfolding select_capabilities check_explicit at_ref put_ref get values elem filter any
selected = refl

elsewhere :
    select_capabilities by_id by_ref known 0
      (endpoint "POST" "/payments" ("paging" ∷ []) ∷ [])
      nothing_yet
    ≡ err (inapplicable_capability "paging" "POST" "/payments")
unfolding select_capabilities check_explicit at_ref put_ref get values elem filter any
elsewhere = refl

capability_indexes-offers_case :
    has (at_ref by_ref payments) "paging" ≡ offers known payments "paging"
capability_indexes-offers_case =
    capability_indexes-offers known by_id by_ref payments "paging" indexed

is_ok-select_capabilities_case :
    is_ok (
      select_capabilities by_id by_ref known 0
        (endpoint "POST" "/payments" ("paging" ∷ []) ∷ [])
        nothing_yet)
    ≡ all (names_own by_id by_ref) (endpoint "POST" "/payments" ("paging" ∷ []) ∷ [])
is_ok-select_capabilities_case =
    is_ok-select_capabilities by_id by_ref known 0
      (endpoint "POST" "/payments" ("paging" ∷ []) ∷ []) nothing_yet

abbrev paged_case : CatalogueTestCase
paged_case = record {
  test_case_id = "pages";
  name = "pages";
  applicability = record {
    security_profiles = record { profiles = "all" ∷ [] };
    endpoint_refs = payments ∷ [];
    required_capability_ids = "paging" ∷ [];
    specification_versions = [];
  };
  mandatory = false;
  dependencies = [];
  assertion_ids = [];
  runtime_input_requirements = [];
  trace_group = none;
  gate_absence_behavior = "exclude";
}

is_ok-validate_capability_references_case :
    is_ok (validate_capability_references (paged_case ∷ []) by_id)
    ≡ all
        (λ case.
          all
            (λ i. applies_within case.applicability.endpoint_refs (get by_id i))
            case.applicability.required_capability_ids)
        (paged_case ∷ [])
is_ok-validate_capability_references_case =
    is_ok-validate_capability_references (paged_case ∷ []) by_id
