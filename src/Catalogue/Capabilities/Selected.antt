-- ===== src/Catalogue/Capabilities/Selected.antt =====
-- Which selections of capabilities are accepted.
use conformance_suite_v.Base.{
  ℕ, suc, String, ◌≡◌, refl, ◌∙◌, Bool, true, false, not, ◌&&◌, Option, none, some, List, [], ◌∷◌,
  ◌++◌, Result, ok, err, ◌>>=◌, ◌>>◌, is_ok, arith, all, any,
}
use conformance_suite_v.Base.Dict.{Dict, get, has}
use conformance_suite_v.Catalogue.{EndpointRef, CatalogueTestCase, CatalogueError}
use conformance_suite_v.Catalogue.Capabilities.{
  EndpointCapability, EndpointCapabilitySelection, ImplementedEndpoint, RefDict, at_ref, ref_of,
  check_explicit, normalised_ids, selections_of, put_ref, select_capabilities, is_disjoint,
  is_nowhere, check_reference, check_references, check_case, validate_capability_references,
}

-- each capability that the endpoint names is known, and applies to it
abbrev pub names_own :
    Dict EndpointCapability → RefDict (Dict EndpointCapability) → ImplementedEndpoint → Bool
names_own by_id by_ref e =
    all (λ i. has by_id i && has (at_ref by_ref (ref_of e)) i) e.capability_ids

is_ok-check_explicit :
    (index : ℕ) (e : ImplementedEndpoint) (by_id here : Dict EndpointCapability) (ids : List String)
    → is_ok (check_explicit index e by_id here ids) ≡ all (λ i. has by_id i && has here i) ids
unfolding check_explicit all
is_ok-check_explicit index e by_id here [] = refl
is_ok-check_explicit index e by_id here (i ∷ ids) =
    ground (arith, is_ok-check_explicit index e by_id here ids)

is_ok-next {ℓ} :
    {B : Type ℓ} (r : Result CatalogueError (Unit {0})) (next : Result CatalogueError B)
    → is_ok (r >> next) ≡ (is_ok r && is_ok next)
is_ok-next (ok tt) next = refl
is_ok-next (err e) next = refl

is_ok-last {ℓ κ} :
    {A : Type ℓ} {B : Type κ} (r : Result CatalogueError A) (f : A → B)
    → is_ok (r >>= λ a. ok (f a)) ≡ is_ok r
is_ok-last (ok a) f = refl
is_ok-last (err e) f = refl

-- The selection of capabilities is accepted exactly if each endpoint names only capabilities that the
-- catalogue knows and that apply to the endpoint.
pub is_ok-select_capabilities :
    (by_id : Dict EndpointCapability) (by_ref : RefDict (Dict EndpointCapability))
    (order : List EndpointCapability) (index : ℕ) (endpoints : List ImplementedEndpoint)
    (selected : RefDict (List String))
    → is_ok (select_capabilities by_id by_ref order index endpoints selected)
      ≡ all (names_own by_id by_ref) endpoints
unfolding select_capabilities all
is_ok-select_capabilities by_id by_ref order index [] selected = refl
is_ok-select_capabilities by_id by_ref order index (e ∷ es) selected =
    let here = at_ref by_ref (ref_of e) in
    let ids = normalised_ids e here in
    let rest =
      select_capabilities by_id by_ref order (suc index) es (put_ref selected (ref_of e) ids) in
    is_ok-next (check_explicit index e by_id here e.capability_ids) _
    ∙ rw
        (
          is_ok-check_explicit index e by_id here e.capability_ids,
          is_ok-last {B = RefDict (List String) × List EndpointCapabilitySelection} rest
              (λ p. (p.0, selections_of e ids order ++ p.1)),
          is_ok-select_capabilities by_id by_ref order (suc index) es
              (put_ref selected (ref_of e) ids),
        )
        refl

abbrev pub applies_within : List EndpointRef → Option EndpointCapability → Bool
applies_within refs none = false
applies_within refs (some c) = not (is_disjoint refs c.endpoint_refs)

is_ok-check_reference :
    (case : CatalogueTestCase) (i : String) (o : Option EndpointCapability)
    → is_ok (check_reference case i o) ≡ applies_within case.applicability.endpoint_refs o
is_ok-check_reference case i none = refl
is_ok-check_reference case i (some c) = ground arith

is_ok-check_references :
    (by_id : Dict EndpointCapability) (case : CatalogueTestCase) (ids : List String)
    → is_ok (check_references by_id case ids)
      ≡ all (λ i. applies_within case.applicability.endpoint_refs (get by_id i)) ids
unfolding check_references all
is_ok-check_references by_id case [] = refl
is_ok-check_references by_id case (i ∷ ids) =
    is_ok-next (check_reference case i (get by_id i)) _
    ∙ rw (is_ok-check_reference case i (get by_id i), is_ok-check_references by_id case ids) refl

within-nowhere :
    (refs : List EndpointRef) (o : Option EndpointCapability)
    → is_nowhere refs ≡ true
    → applies_within refs o ≡ false
unfolding any
within-nowhere [] none h = refl
within-nowhere [] (some c) h = refl
within-nowhere (r ∷ refs) o h = absurd (cc)

is_ok-check_case :
    (by_id : Dict EndpointCapability) (case : CatalogueTestCase) (ids : List String)
    → is_ok (check_case by_id case ids)
      ≡ all (λ i. applies_within case.applicability.endpoint_refs (get by_id i)) ids
unfolding all
is_ok-check_case by_id case [] = refl
is_ok-check_case by_id case (i ∷ ids) = ground (
  arith,
  is_ok-check_references by_id case (i ∷ ids),
  within-nowhere case.applicability.endpoint_refs (get by_id i),
)

-- The catalogue's cases are accepted exactly if each capability that a case requires is known and
-- applies to an endpoint of the case.
pub is_ok-validate_capability_references :
    (cases : List CatalogueTestCase) (by_id : Dict EndpointCapability)
    → is_ok (validate_capability_references cases by_id)
      ≡ all
          (λ case.
            all
              (λ i. applies_within case.applicability.endpoint_refs (get by_id i))
              case.applicability.required_capability_ids)
          cases
unfolding validate_capability_references all
is_ok-validate_capability_references [] by_id = refl
is_ok-validate_capability_references (case ∷ cases) by_id =
    let required = case.applicability.required_capability_ids in
    is_ok-next (check_case by_id case required) _
    ∙ rw (is_ok-check_case by_id case required, is_ok-validate_capability_references cases by_id)
        refl
