-- ===== src/Catalogue/Compiler/Compiled.antt =====
-- What a compiled plan is made of.
use mathlib.Core.Path.{subst}
use conformance_suite_v.Base.{
  ℕ, zero, suc, String, ◌≡◌, ◌≢◌, refl, sym, ◌∙◌, true, not, Option, none, some, List, [], ◌∷◌, map,
  ok, ◌>>=◌, >>=-eq-ok, >>-eq-ok, arith, eq_refl, elem, filter,
}
use conformance_suite_v.Base.Json.{Json, null}
use conformance_suite_v.Base.Split.{get_elem?}
use conformance_suite_v.Base.Dict.{Dict, get}
use conformance_suite_v.Catalogue.{
  EndpointRef, RuntimeInputRequirement, CatalogueTestCase, catalogue_cases_by_id,
}
use conformance_suite_v.Catalogue.Ordering.{ordered_case_ids}
use conformance_suite_v.Catalogue.Selection.{
  AssertionOverride, Selection, decide, decisions_from, traceability_decision, no_reasons,
  directly_applicable, reject_invalid_deselection, reject_dependencies,
  validate_assertion_overrides, compile_selection,
}
use conformance_suite_v.Catalogue.Capabilities.{
  EndpointCapability, RefDict, capability_indexes, EndpointCapabilitySelection, select_capabilities,
  ids_at_ref, validate_capability_references,
}
use conformance_suite_v.Catalogue.RuntimeInputs.{
  RuntimeInputTrace, validate_runtime_input_value, runtime_input_snapshot,
}
use conformance_suite_v.Catalogue.RuntimeInputs.Snapshot.{
  runtime_input_snapshot_hides, runtime_input_snapshot_gives,
}
use conformance_suite_v.Catalogue.Compiler.{
  TestCatalogue, PlanRequest, CompiledTestPlan, canonical_endpoints, selection_spec, found_case,
  cases_at, plan_of, compile_cases, compile_catalogue, compile_test_plan,
}

pub cases_at_cons :
    (cases : Dict CatalogueTestCase) (i : String) (ids : List String)
    (found : Option CatalogueTestCase) (cs : List CatalogueTestCase)
    → get cases i ≡ found
    → (found_case i found >>= λ first. cases_at cases ids >>= λ rest. ok (first ∷ rest)) ≡ ok cs
    → (d : CatalogueTestCase) × (rest : List CatalogueTestCase) × (get cases i ≡ some d)
      × (cases_at cases ids ≡ ok rest)
      × (d ∷ rest ≡ cs)
cases_at_cons cases i ids none cs e h = absurd (cc)
cases_at_cons cases i ids (some d) cs e h =
    let (rest, others, built) = >>=-eq-ok (cases_at cases ids) (λ rest. ok (d ∷ rest)) h in
    (d, rest, e, others, cc)

-- The case at a place of the compiled cases is that of an identifier in the order.
pub cases_at_place :
    (cases : Dict CatalogueTestCase) (ids : List String) (cs : List CatalogueTestCase) (k : ℕ)
    (c : CatalogueTestCase)
    → cases_at cases ids ≡ ok cs
    → get_elem? cs k ≡ some c
    → (i : String) × (elem i ids ≡ true) × (get cases i ≡ some c)
unfolding cases_at elem
cases_at_place cases [] cs k c h at = let e : [] ≡ cs = cc in absurd (cc)
cases_at_place cases (i ∷ ids) cs zero c h at =
    let (d, rest, stands, others, built) = cases_at_cons cases i ids (get cases i) cs refl h in
    let same : some d ≡ some c = subst (λ x. get_elem? x zero ≡ some c) (sym built) at in
    (i, ground (arith, eq_refl i), stands ∙ same)
cases_at_place cases (i ∷ ids) cs (suc k) c h at =
    let (d, rest, stands, others, built) = cases_at_cons cases i ids (get cases i) cs refl h in
    let (j, among, found) =
      cases_at_place cases ids rest k c others
        (subst (λ x. get_elem? x (suc k) ≡ some c) (sym built) at) in
    (j, ground arith, found)

-- what the selection of cases gives to a plan
abbrev pub selection_of : CompiledTestPlan → Selection
selection_of plan = record {
  generated_test_case_ids = plan.traceability.generated_test_case_ids;
  applicability_decisions = plan.traceability.applicability_decisions;
  non_certifying_reasons = plan.traceability.non_certifying_reasons;
  certifying = plan.certifying;
}

module _ (https_url_error : String → Option String) (catalogue : TestCatalogue)
    (spec : PlanRequest) where
  pub record IsMade (cases : Dict CatalogueTestCase) (capabilities : EndpointRef → List String)
      (selections : List EndpointCapabilitySelection) (plan : CompiledTestPlan) : Type 0 where
    pub indexed : catalogue_cases_by_id catalogue.test_cases ≡ ok cases
    pub chosen :
        compile_selection catalogue.test_cases (selection_spec spec) capabilities
        ≡ ok (selection_of plan)
    pub shown :
        runtime_input_snapshot https_url_error spec.runtime_inputs cases
          plan.traceability.generated_test_case_ids
        ≡ ok plan.traceability.runtime_input_snapshot
    pub found : cases_at cases plan.traceability.generated_test_case_ids ≡ ok plan.test_cases
    pub granted : selections ≡ plan.traceability.selected_capabilities

  chosen_again :
      (cases : Dict CatalogueTestCase) (capabilities : EndpointRef → List String)
      (ordered : List String) (edges : Dict (List String)) (reasons : List AssertionOverride)
      → catalogue_cases_by_id catalogue.test_cases ≡ ok cases
      → reject_invalid_deselection spec.deselected_test_case_ids cases
          (directly_applicable (decide (selection_spec spec) capabilities) catalogue.test_cases)
        ≡ ok tt
      → ordered_case_ids cases spec.security_profile (
          filter
            (λ i. not (elem i spec.deselected_test_case_ids))
            (directly_applicable (decide (selection_spec spec) capabilities) catalogue.test_cases))
        ≡ ok (ordered, edges)
      → reject_dependencies (filter (λ i. elem i spec.deselected_test_case_ids) ordered) ≡ ok tt
      → validate_assertion_overrides cases ordered spec.assertion_overrides ≡ ok reasons
      → compile_selection catalogue.test_cases (selection_spec spec) capabilities
        ≡ ok (record {
          generated_test_case_ids = ordered;
          applicability_decisions =
              map (traceability_decision ordered edges spec.deselected_test_case_ids) (
                decisions_from (decide (selection_spec spec) capabilities) catalogue.test_cases []);
          non_certifying_reasons = reasons;
          certifying = no_reasons reasons;
        })
  unfolding compile_selection
  chosen_again cases capabilities ordered edges reasons indexed allowed o kept r =
      rw (indexed, allowed, o, kept, r) refl

  made :
      (cases : Dict CatalogueTestCase) (capabilities : EndpointRef → List String)
      (selections : List EndpointCapabilitySelection) (plan : CompiledTestPlan)
      → catalogue_cases_by_id catalogue.test_cases ≡ ok cases
      → compile_cases https_url_error catalogue spec cases capabilities selections ≡ ok plan
      → IsMade cases capabilities selections plan
  unfolding compile_cases
  made cases capabilities selections plan indexed h =
      let direct_ids =
        directly_applicable (decide (selection_spec spec) capabilities) catalogue.test_cases in
      let (allowed, h1) = >>-eq-ok (reject_invalid_deselection _ _ _) _ h in
      let ((ordered, edges), o, h2) = >>=-eq-ok (ordered_case_ids _ _ _) _ h1 in
      let (kept, h3) =
        >>-eq-ok (reject_dependencies (filter (λ i. elem i spec.deselected_test_case_ids) ordered))
          _ h2 in
      let (snapshot, s, h4) = >>=-eq-ok (runtime_input_snapshot _ _ _ _) _ h3 in
      let (reasons, r, h5) = >>=-eq-ok (validate_assertion_overrides _ _ _) _ h4 in
      let (cs, f, h6) = >>=-eq-ok (cases_at _ _) _ h5 in
      let same : plan_of https_url_error catalogue spec capabilities selections ordered edges
            snapshot reasons cs
          ≡ plan =
        cc in
      subst (IsMade cases capabilities selections) same (record {
        indexed = indexed;
        chosen = chosen_again cases capabilities ordered edges reasons indexed allowed o kept r;
        shown = s;
        found = f;
        granted = refl;
      })

  -- what a plan that is compiled went through
  pub compiled_catalogue :
      (plan : CompiledTestPlan)
      → compile_catalogue https_url_error catalogue spec ≡ ok plan
      → (cases : Dict CatalogueTestCase) × (by_id : Dict EndpointCapability) × (by_ref : RefDict
          (Dict EndpointCapability))
        × (selected : RefDict (List String)) × (capability_indexes catalogue.capabilities
            ≡ ok (by_id, by_ref))
        × (select_capabilities by_id by_ref catalogue.capabilities 0 (canonical_endpoints spec) []
            ≡ ok (selected, plan.traceability.selected_capabilities))
        × IsMade cases (ids_at_ref selected) plan.traceability.selected_capabilities plan
  unfolding compile_catalogue
  compiled_catalogue plan h =
      let (cases, indexed, h1) = >>=-eq-ok (catalogue_cases_by_id catalogue.test_cases) _ h in
      let ((by_id, by_ref), c, h2) = >>=-eq-ok (capability_indexes catalogue.capabilities) _ h1 in
      let ((selected, selections), s, h3) = >>=-eq-ok (select_capabilities _ _ _ _ _ _) _ h2 in
      let (_, h4) = >>-eq-ok (validate_capability_references _ _) _ h3 in
      let m : IsMade cases (ids_at_ref selected) selections plan =
        made cases (ids_at_ref selected) selections plan indexed h4 in
      (
        cases,
        by_id,
        by_ref,
        selected,
        c,
        subst
            (λ x.
              select_capabilities by_id by_ref catalogue.capabilities 0 (canonical_endpoints spec)
                []
              ≡ ok (selected, x))
            m.granted s,
        subst (λ x. IsMade cases (ids_at_ref selected) x plan) m.granted m,
      )

  pub catalogue_compiled :
      (plan : CompiledTestPlan)
      → compile_test_plan https_url_error catalogue spec ≡ ok plan
      → compile_catalogue https_url_error catalogue spec ≡ ok plan
  unfolding compile_test_plan
  catalogue_compiled plan h = ground arith

module _ (https_url_error : String → Option String) (catalogue : TestCatalogue) (spec : PlanRequest)
    (plan : CompiledTestPlan) (k n : ℕ) (c : CatalogueTestCase) (r : RuntimeInputRequirement)
    (compiled : compile_test_plan https_url_error catalogue spec ≡ ok plan)
    (stands : get_elem? plan.test_cases k ≡ some c)
    (requires : get_elem? c.runtime_input_requirements n ≡ some r) where
  -- In a plan that is compiled, if one of its cases says of an input that it is sensitive, then no trace
  -- of that input shows a value, and each says that it is sensitive, whatever other cases say of it.
  pub compile_test_plan_hides :
      (m : ℕ) (t : RuntimeInputTrace)
      → r.sensitive ≡ true
      → get_elem? plan.traceability.runtime_input_snapshot m ≡ some t
      → t.input_id ≡ r.input_id
      → (t.sensitive ≡ true) × (t.value ≡ none)
  compile_test_plan_hides m t hidden at named =
      let (cases, _, _, _, _, _, v) =
        compiled_catalogue https_url_error catalogue spec plan
          (catalogue_compiled https_url_error catalogue spec plan compiled) in
      let (i, among, found) =
        cases_at_place cases plan.traceability.generated_test_case_ids plan.test_cases k c v.found
          stands in
      runtime_input_snapshot_hides https_url_error spec.runtime_inputs cases
        plan.traceability.generated_test_case_ids plan.traceability.runtime_input_snapshot i c n r
        v.shown among found requires m t hidden at named

  -- When a plan is compiled, the participant gave a value to each input that one of its cases requires
  -- of the plan: one that is not null and passes the check of the case's own requirement.
  pub compile_test_plan_gives :
      r.required ≡ true
      → r.source ≡ "plan"
      → (value : Json) × (get spec.runtime_inputs r.input_id ≡ some value)
        × (value ≢ null)
        × (validate_runtime_input_value https_url_error r value ≡ ok tt)
  compile_test_plan_gives required source =
      let (cases, _, _, _, _, _, v) =
        compiled_catalogue https_url_error catalogue spec plan
          (catalogue_compiled https_url_error catalogue spec plan compiled) in
      let (i, among, found) =
        cases_at_place cases plan.traceability.generated_test_case_ids plan.test_cases k c v.found
          stands in
      runtime_input_snapshot_gives https_url_error spec.runtime_inputs cases
        plan.traceability.generated_test_case_ids plan.traceability.runtime_input_snapshot i c n r
        v.shown among found requires required source
