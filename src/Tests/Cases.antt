-- ===== src/Tests/Cases.antt =====
-- The order of catalogue cases (conformance/catalogue.py) on a small catalogue.
use conformance_suite_v.Base.{
  none, ℕ, ◌<◌, String, ◌≡◌, refl, ◌⊎◌, inl, inr, true, List, [], ◌∷◌, ok, err, is_ok, arith,
  eq_iff, str_eq, elem, filter, if◌then◌else◌,
}
use conformance_suite_v.Base.Dict.{Dict, get, put, keys}
use conformance_suite_v.Catalogue.{CatalogueTestCase, dependency_cycle, applies_to}
use conformance_suite_v.Catalogue.Ordering.{ordered_case_ids}
use conformance_suite_v.Catalogue.Ordering.Paths.{deps_of}
use conformance_suite_v.Catalogue.Ordering.Total.{IsCaseResult, ordered_case_ids_sound}
use conformance_suite_v.Catalogue.Ordering.Complete.{IsGraded, ordered_case_ids_complete}

abbrev case_of : String → List String → CatalogueTestCase
case_of i deps = record {
  test_case_id = i;
  name = i;
  applicability = record {
    security_profiles = record { profiles = "all" ∷ [] };
    endpoint_refs = [];
    required_capability_ids = [];
    specification_versions = [];
  };
  mandatory = true;
  dependencies = deps;
  assertion_ids = [];
  runtime_input_requirements = [];
  trace_group = none;
  gate_absence_behavior = "exclude";
}

abbrev cases : Dict CatalogueTestCase
cases =
    ("read", case_of "read" ("token" ∷ "consent" ∷ []))
    ∷ ("consent", case_of "consent" ("token" ∷ []))
    ∷ ("token", case_of "token" [])
    ∷ []

order :
    ordered_case_ids cases "fapi2" ("read" ∷ [])
    ≡ ok (
      "token" ∷ "consent" ∷ "read" ∷ [],
      ("token", "consent" ∷ "read" ∷ []) ∷ ("consent", "read" ∷ []) ∷ [],
    )
unfolding ordered_case_ids applies_to get put keys elem filter
order = refl

abbrev cyclic : Dict CatalogueTestCase
cyclic = ("a", case_of "a" ("b" ∷ [])) ∷ ("b", case_of "b" ("a" ∷ [])) ∷ []

cycle_found : ordered_case_ids cyclic "fapi2" ("a" ∷ []) ≡ err (dependency_cycle "a")
unfolding ordered_case_ids applies_to get put keys elem filter
cycle_found = refl

ordered_case_ids_sound_example :
    IsCaseResult cases "fapi2" ("read" ∷ []) (ordered_case_ids cases "fapi2" ("read" ∷ []))
ordered_case_ids_sound_example = ordered_case_ids_sound cases "fapi2" ("read" ∷ [])

abbrev rank : String → ℕ
rank i = if str_eq i "read" then 2 else if str_eq i "consent" then 1 else 0

abbrev IsEdge : String → String → Type 0
IsEdge i d = ((i ≡ "read") × ((d ≡ "token") ⊎ (d ≡ "consent"))) ⊎ ((i ≡ "consent") × (d ≡ "token"))

edges : (i d : String) → elem d (deps_of (get cases i)) ≡ true → IsEdge i d
unfolding get elem
edges i d h = ground (
  arith,
  eq_iff "read" i,
  eq_iff "consent" i,
  eq_iff "token" i,
  eq_iff d "token",
  eq_iff d "consent",
)

edge-descends : (i d : String) → IsEdge i d → rank d < rank i
edge-descends i d (inl (e, inl f)) = rw (f, e) (omega arith)
edge-descends i d (inl (e, inr f)) = rw (f, e) (omega arith)
edge-descends i d (inr (e, f)) = rw (f, e) (omega arith)

graded : IsGraded cases "fapi2" rank
unfolding get elem applies_to
graded = record {
  applies_all = λ i c e. ground arith;
  present = λ i d e. ground (arith, eq_iff d "token", eq_iff d "consent");
  descends = λ i d e. edge-descends i d (edges i d e);
}

ordered_case_ids_complete_example : is_ok (ordered_case_ids cases "fapi2" ("read" ∷ [])) ≡ true
ordered_case_ids_complete_example =
    ordered_case_ids_complete cases "fapi2" ("read" ∷ []) rank graded
