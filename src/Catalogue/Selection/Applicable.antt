-- ===== src/Catalogue/Selection/Applicable.antt =====
-- Which cases apply, against a description by one condition.
use conformance_suite_v.Base.{
  String, ◌≡◌, refl, Bool, true, false, not, ◌&&◌, List, [], ◌∷◌, arith, elem, filter, all,
}
use conformance_suite_v.Catalogue.{EndpointRef, CatalogueTestCase, applies_to}
use conformance_suite_v.Catalogue.Selection.{
  TestPlanSpec, is_subset, applies_to_version, capabilities_for_refs, decide_capabilities,
  decide_endpoints, missing_of, decide,
}

-- the endpoints of a case that has some are implemented and give all capabilities that it requires
abbrev pub endpoints_ready :
    TestPlanSpec → (EndpointRef → List String) → List String → List EndpointRef → Bool
endpoints_ready spec capabilities required [] = true
endpoints_ready spec capabilities required (r ∷ refs) =
    is_subset (r ∷ refs) spec.implemented_refs
    && all (λ i. elem i (capabilities_for_refs capabilities (r ∷ refs))) required

abbrev pub is_applicable : TestPlanSpec → (EndpointRef → List String) → CatalogueTestCase → Bool
is_applicable spec capabilities c =
    applies_to c.applicability.security_profiles spec.security_profile
    && (applies_to_version c spec.specification_version
        && endpoints_ready spec capabilities c.applicability.required_capability_ids
            c.applicability.endpoint_refs)

abbrev nothing_left : List String → Bool
nothing_left [] = true
nothing_left (_ ∷ _) = false

nothing-filter :
    (p : String → Bool) (l : List String) → nothing_left (filter (λ i. not (p i)) l) ≡ all p l
unfolding filter all
nothing-filter p [] = refl
nothing-filter p (i ∷ l) = ground (arith, nothing-filter p l)

selected-capabilities :
    (c : CatalogueTestCase) (required missing : List String)
    → (decide_capabilities c required missing).selected ≡ nothing_left missing
selected-capabilities c [] [] = refl
selected-capabilities c (i ∷ required) [] = refl
selected-capabilities c required (i ∷ missing) = refl

selected-endpoints :
    (spec : TestPlanSpec) (capabilities : EndpointRef → List String) (c : CatalogueTestCase)
    (refs : List EndpointRef)
    → c.applicability.endpoint_refs ≡ refs
    → (decide_endpoints spec capabilities c refs).selected
      ≡ endpoints_ready spec capabilities c.applicability.required_capability_ids refs
selected-endpoints spec capabilities c [] h = refl
selected-endpoints spec capabilities c (r ∷ refs) h =
    let required = c.applicability.required_capability_ids in
    ground (
      arith,
      selected-capabilities c required (missing_of capabilities c.applicability),
      nothing-filter (λ i. elem i (capabilities_for_refs capabilities (r ∷ refs))) required,
    )

-- The compiler selects a case exactly if the case applies to the profile and to the version of the
-- plan, and its endpoints, if it has any, are all implemented and together give the capabilities
-- that it requires.
pub decide-is_applicable :
    (spec : TestPlanSpec) (capabilities : EndpointRef → List String) (c : CatalogueTestCase)
    → (decide spec capabilities c).selected ≡ is_applicable spec capabilities c
unfolding decide
decide-is_applicable spec capabilities c =
    ground (arith, selected-endpoints spec capabilities c c.applicability.endpoint_refs refl)
