-- ===== src/Catalogue/Capabilities.antt =====
-- The capabilities that a participant selects for its endpoints, in conformance/catalogue.py: the
-- indexes of the catalogue's capabilities, and the selection for each endpoint.
pub mod Indexes
pub mod Selected
use Prim.Native.Char.{Char, code}
use Prim.Native.String
use conformance_suite_v.Base.{
  ℕ, suc, String, Bool, true, false, not, ◌&&◌, ◌||◌, Option, none, some, List, [], ◌∷◌, ◌++◌, map,
  Result, ok, err, ◌>>=◌, ◌>>◌, str_eq, leb, ◌==◌, if◌then◌else◌, elem, filter, any,
}
use conformance_suite_v.Base.Dict.{Dict, get, put, has, values}
use conformance_suite_v.Catalogue.{
  EndpointRef, CatalogueTestCase, CatalogueError, blank_capability_id, blank_capability_label,
  blank_capability_description, capability_without_endpoints, duplicate_capability,
  unknown_capability, inapplicable_capability, capabilities_without_endpoints,
  unknown_case_capability, capability_outside_case,
}
use conformance_suite_v.Catalogue.Selection.{same_ref}

pub record ImplementedEndpoint : Type 0 where
  pub method : String
  pub path : String
  pub resource_group : String
  pub operation_id : Option String
  pub capability_ids : List String

pub record EndpointCapability : Type 0 where
  pub capability_id : String
  pub label : String
  pub description : String
  pub required : Bool
  pub endpoint_refs : List EndpointRef

pub record EndpointCapabilitySelection : Type 0 where
  pub method : String
  pub path : String
  pub capability_id : String
  pub label : String
  pub required : Bool

-- `dict[EndpointRef, …]`
abbrev pub RefDict {ℓ} : Type ℓ → Type ℓ
RefDict V = List (EndpointRef × V)

-- the characters that `str.strip` removes
abbrev pub is_space : Char → Bool
is_space c =
    (leb 9 (code c) && leb (code c) 13)
    || (leb 28 (code c) && leb (code c) 32)
    || code c == 133
    || code c == 160
    || code c == 5760
    || (leb 8192 (code c) && leb (code c) 8202)
    || code c == 8232
    || code c == 8233
    || code c == 8239
    || code c == 8287
    || code c == 12288

-- `not s.strip()`
unfoldable pub is_blank : String → Bool
is_blank String.[] = true
is_blank (String.◌∷◌ c s) = is_space c && is_blank s

-- `by_ref.get(ref, {})`
unfoldable pub at_ref : RefDict (Dict EndpointCapability) → EndpointRef → Dict EndpointCapability
at_ref [] r = []
at_ref ((q, d) ∷ rest) r = if same_ref q r then d else at_ref rest r

-- `by_ref.setdefault(ref, {})[capability_id] = capability`
unfoldable pub add_at_ref :
    EndpointCapability
    → EndpointRef
    → RefDict (Dict EndpointCapability)
    → RefDict (Dict EndpointCapability)
add_at_ref c r [] = (r, put [] c.capability_id c) ∷ []
add_at_ref c r ((q, d) ∷ rest) =
    if same_ref q r then (q, put d c.capability_id c) ∷ rest else (q, d) ∷ add_at_ref c r rest

unfoldable pub add_at_refs :
    EndpointCapability
    → List EndpointRef
    → RefDict (Dict EndpointCapability)
    → RefDict (Dict EndpointCapability)
add_at_refs c [] by_ref = by_ref
add_at_refs c (r ∷ refs) by_ref = add_at_refs c refs (add_at_ref c r by_ref)

abbrev pub is_nowhere : List EndpointRef → Bool
is_nowhere [] = true
is_nowhere (_ ∷ _) = false

-- the loop of `_catalogue_capability_indexes`
unfoldable pub index_capabilities :
    List EndpointCapability
    → Dict EndpointCapability
    → RefDict (Dict EndpointCapability)
    → Result CatalogueError (Dict EndpointCapability × RefDict (Dict EndpointCapability))
index_capabilities [] by_id by_ref = ok (by_id, by_ref)
index_capabilities (c ∷ cs) by_id by_ref =
    let rest =
      index_capabilities cs (put by_id c.capability_id c) (add_at_refs c c.endpoint_refs by_ref) in
    if is_blank c.capability_id
    then err blank_capability_id
    else if is_blank c.label
    then err (blank_capability_label c.capability_id)
    else if is_blank c.description
    then err (blank_capability_description c.capability_id)
    else if is_nowhere c.endpoint_refs
    then err (capability_without_endpoints c.capability_id)
    else if has by_id c.capability_id
    then err (duplicate_capability c.capability_id)
    else rest

unfoldable pub capability_indexes :
    List EndpointCapability
    → Result CatalogueError (Dict EndpointCapability × RefDict (Dict EndpointCapability))
unfolding index_capabilities
capability_indexes capabilities = index_capabilities capabilities [] []

-- the checks of the capabilities that an endpoint names
unfoldable pub check_explicit :
    ℕ
    → ImplementedEndpoint
    → Dict EndpointCapability
    → Dict EndpointCapability
    → List String
    → Result CatalogueError (Unit {0})
check_explicit index e by_id here [] = ok tt
check_explicit index e by_id here (i ∷ ids) =
    let rest = check_explicit index e by_id here ids in
    if not (has by_id i)
    then err (unknown_capability index i)
    else if not (has here i)
    then err (inapplicable_capability i e.method e.path)
    else rest

-- `normalised_ids`
abbrev pub normalised_ids : ImplementedEndpoint → Dict EndpointCapability → List String
normalised_ids e here =
    map (λ (c : EndpointCapability). c.capability_id)
      (filter (λ (c : EndpointCapability). c.required || elem c.capability_id e.capability_ids)
        (values here))

abbrev pub ref_of : ImplementedEndpoint → EndpointRef
ref_of e = record { method = e.method; path = e.path }

unfoldable pub put_ref : RefDict (List String) → EndpointRef → List String → RefDict (List String)
put_ref [] r ids = (r, ids) ∷ []
put_ref ((q, old) ∷ rest) r ids =
    if same_ref q r then (q, ids) ∷ rest else (q, old) ∷ put_ref rest r ids

-- `selected_by_ref.get(ref, set())`
unfoldable pub ids_at_ref : RefDict (List String) → EndpointRef → List String
ids_at_ref [] r = []
ids_at_ref ((q, ids) ∷ rest) r = if same_ref q r then ids else ids_at_ref rest r

abbrev pub selections_of :
    ImplementedEndpoint → List String → List EndpointCapability → List EndpointCapabilitySelection
selections_of e ids order =
    map
      (λ (c : EndpointCapability). record {
        method = e.method;
        path = e.path;
        capability_id = c.capability_id;
        label = c.label;
        required = c.required;
      })
      (filter
        (λ (c : EndpointCapability).
          any (same_ref (ref_of e)) c.endpoint_refs && elem c.capability_id ids)
        order)

module _ (by_id : Dict EndpointCapability) (by_ref : RefDict (Dict EndpointCapability))
    (order : List EndpointCapability) where
  -- the loop of `_selected_capabilities_by_endpoint`, from the endpoint with number `index` on
  unfoldable pub select_capabilities :
      ℕ
      → List ImplementedEndpoint
      → RefDict (List String)
      → Result CatalogueError (RefDict (List String) × List EndpointCapabilitySelection)
  select_capabilities index [] selected = ok (selected, [])
  select_capabilities index (e ∷ es) selected = do
    check_explicit index e by_id (at_ref by_ref (ref_of e)) e.capability_ids
    let ids = normalised_ids e (at_ref by_ref (ref_of e))
    (all_selected, selections) ←
        select_capabilities (suc index) es (put_ref selected (ref_of e) ids)
    ok (all_selected, selections_of e ids order ++ selections)

abbrev pub is_disjoint : List EndpointRef → List EndpointRef → Bool
is_disjoint refs others = not (any (λ r. any (same_ref r) others) refs)

abbrev pub check_reference :
    CatalogueTestCase → String → Option EndpointCapability → Result CatalogueError (Unit {0})
check_reference case i none = err (unknown_case_capability case.test_case_id i)
check_reference case i (some c) =
    if is_disjoint case.applicability.endpoint_refs c.endpoint_refs
    then err (capability_outside_case case.test_case_id i)
    else ok tt

unfoldable pub check_references :
    Dict EndpointCapability → CatalogueTestCase → List String → Result CatalogueError (Unit {0})
check_references by_id case [] = ok tt
check_references by_id case (i ∷ ids) = do
  check_reference case i (get by_id i)
  check_references by_id case ids

abbrev pub check_case :
    Dict EndpointCapability → CatalogueTestCase → List String → Result CatalogueError (Unit {0})
check_case by_id case [] = ok tt
check_case by_id case (i ∷ ids) =
    if is_nowhere case.applicability.endpoint_refs
    then err (capabilities_without_endpoints case.test_case_id)
    else check_references by_id case (i ∷ ids)

-- `_validate_test_case_capability_references`
unfoldable pub validate_capability_references :
    List CatalogueTestCase → Dict EndpointCapability → Result CatalogueError (Unit {0})
validate_capability_references [] by_id = ok tt
validate_capability_references (case ∷ cases) by_id = do
  check_case by_id case case.applicability.required_capability_ids
  validate_capability_references cases by_id
