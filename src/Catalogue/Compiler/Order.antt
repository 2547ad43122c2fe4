-- ===== src/Catalogue/Compiler/Order.antt =====
-- The order of the cases of a compiled plan (conformance/catalogue.py, `compile_test_plan`).
use mathlib.Core.Path.{subst}
use mathlib.Core.List.{append_assoc, append-nil}
use conformance_suite_v.Base.{
  Bool-cases, inl, inr, ℕ, zero, suc, String, ◌≡◌, refl, sym, ap, ◌∙◌, true, false, Option, none,
  some, List, [], ◌∷◌, ◌++◌, map, ok, arith, eq_iff, str_eq, elem, filter, not, All,
}
use conformance_suite_v.Base.Dict.{Dict, get}
use conformance_suite_v.Base.Sort.{take}
use conformance_suite_v.Base.Split.{get_elem?}
use conformance_suite_v.Catalogue.{CatalogueTestCase, catalogue_cases_by_id}
use conformance_suite_v.Catalogue.Ordering.Paths.{deps_of, Extends}
use conformance_suite_v.Catalogue.Ordering.Total.{IsCaseOrder, IsCaseResult, ordered_case_ids_sound}
use conformance_suite_v.Catalogue.Selection.{decide, directly_applicable}
use conformance_suite_v.Catalogue.Selection.Compiled.{
  find_case, get-add_cases, compiled, compile_selection-deselected,
}
use conformance_suite_v.Catalogue.Capabilities.{ids_at_ref}
use conformance_suite_v.Catalogue.Compiler.{
  TestCatalogue, PlanRequest, CompiledTestPlan, selection_spec, cases_at, compile_test_plan,
}
use conformance_suite_v.Catalogue.Compiler.Compiled.{
  cases_at_cons, cases_at_place, selection_of, compiled_catalogue, catalogue_compiled,
}

abbrev case_id : CatalogueTestCase → String
case_id c = c.test_case_id

abbrev pub ids_of : List CatalogueTestCase → List String
ids_of cs = map case_id cs

abbrev id_or : String → Option CatalogueTestCase → String
id_or k none = k
id_or k (some c) = c.test_case_id

find_case_id :
    (cs : List CatalogueTestCase) (k : String) (c : CatalogueTestCase)
    → find_case cs k ≡ some c
    → c.test_case_id ≡ k
unfolding find_case
find_case_id [] k c h = absurd (cc)
find_case_id (b ∷ cs) k c h = elim (Bool-cases (str_eq b.test_case_id k)) [
  | inl e ↦
      let same : some b ≡ some c = rw e at h in
      sym (ap (id_or k) same) ∙ (eq_iff b.test_case_id k).0 e
  | inr e ↦ find_case_id cs k c (rw e at h)
]

-- the cases that are looked up have the identifiers they are looked up by
ids_of-cases_at :
    (test_cases : List CatalogueTestCase) (cases : Dict CatalogueTestCase)
    (same : (k : String) → get cases k ≡ find_case test_cases k) (ids : List String)
    (cs : List CatalogueTestCase)
    → cases_at cases ids ≡ ok cs
    → ids ≡ ids_of cs
unfolding cases_at
ids_of-cases_at test_cases cases same [] cs h = let e : [] ≡ cs = cc in rw (← e) refl
ids_of-cases_at test_cases cases same (i ∷ ids) cs h =
    let (d, rest, stands, others, built) = cases_at_cons cases i ids (get cases i) cs refl h in
    let own : d.test_case_id ≡ i = find_case_id test_cases i d (sym (same i) ∙ stands) in
    let tail : ids ≡ ids_of rest = ids_of-cases_at test_cases cases same ids rest others in
    let all : i ∷ ids ≡ ids_of (d ∷ rest) = cc in all ∙ ap ids_of built

get_elem?-ids_of :
    (cs : List CatalogueTestCase) (n : ℕ) (c : CatalogueTestCase)
    → get_elem? cs n ≡ some c
    → get_elem? (ids_of cs) n ≡ some c.test_case_id
get_elem?-ids_of [] n c h = absurd (cc)
get_elem?-ids_of (d ∷ cs) zero c h = ap (λ x. some x) (ap (id_or d.test_case_id) h)
get_elem?-ids_of (d ∷ cs) (suc n) c h = get_elem?-ids_of cs n c h

take-ids_of : (n : ℕ) (cs : List CatalogueTestCase) → take n (ids_of cs) ≡ ids_of (take n cs)
take-ids_of zero cs = refl
take-ids_of (suc n) [] = refl
take-ids_of (suc n) (c ∷ cs) = ap (λ l. c.test_case_id ∷ l) (take-ids_of n cs)

-- the place of an identifier in an order
abbrev StandsAfter : Dict CatalogueTestCase → List String → String → Type 0
StandsAfter cases before i =
    (elem i before ≡ false) × All (λ d. elem d before ≡ true) (deps_of (get cases i))

at_place :
    (cases : Dict CatalogueTestCase) (before ids : List String) (n : ℕ) (i : String)
    → Extends cases before ids
    → get_elem? ids n ≡ some i
    → StandsAfter cases (before ++ take n ids) i
at_place cases before [] n i h at = absurd (cc)
at_place cases before (j ∷ ids) zero i (new, after, h) at =
    let same : j ≡ i = cc in
    subst (λ b. StandsAfter cases b i) (sym (append-nil before))
      (subst (StandsAfter cases before) same (new, after))
at_place cases before (j ∷ ids) (suc n) i (new, after, h) at =
    subst (λ b. StandsAfter cases b i) (append_assoc before (j ∷ []) (take n ids))
      (at_place cases (before ++ j ∷ []) ids n i h at)

-- the index of the catalogue's cases holds the first of each identifier
get-index :
    (test_cases : List CatalogueTestCase) (cases : Dict CatalogueTestCase) (k : String)
    → catalogue_cases_by_id test_cases ≡ ok cases
    → get cases k ≡ find_case test_cases k
unfolding catalogue_cases_by_id get
get-index test_cases cases k h = get-add_cases test_cases [] cases k h

-- In a plan that is compiled, each case is the catalogue's first under its identifier; the participant
-- did not deselect it; no case of the same identifier stands before it; and each case that it depends
-- on does stand before it.
pub compile_test_plan_orders :
    (https_url_error : String → Option String) (catalogue : TestCatalogue) (spec : PlanRequest)
    (plan : CompiledTestPlan) (n : ℕ) (c : CatalogueTestCase)
    → compile_test_plan https_url_error catalogue spec ≡ ok plan
    → get_elem? plan.test_cases n ≡ some c
    → (find_case catalogue.test_cases c.test_case_id ≡ some c)
      × (elem c.test_case_id spec.deselected_test_case_ids ≡ false)
      × (elem c.test_case_id (ids_of (take n plan.test_cases)) ≡ false)
      × All (λ d. elem d (ids_of (take n plan.test_cases)) ≡ true) c.dependencies
compile_test_plan_orders https_url_error catalogue spec plan n c h at =
    let (cases, by_id, by_ref, selected, _, _, made) =
      compiled_catalogue https_url_error catalogue spec plan
        (catalogue_compiled https_url_error catalogue spec plan h) in
    let sel = selection_of plan in
    let (indexed, edges, chosen) =
      compiled catalogue.test_cases (selection_spec spec) (ids_at_ref selected) sel made.chosen in
    let ids = plan.traceability.generated_test_case_ids in
    let wanted =
      filter (λ i. not (elem i spec.deselected_test_case_ids))
        (directly_applicable (decide (selection_spec spec) (ids_at_ref selected))
          catalogue.test_cases) in
    let order : IsCaseOrder indexed spec.security_profile wanted ids =
      subst (λ r. IsCaseResult indexed spec.security_profile wanted r) chosen.ordered
        (ordered_case_ids_sound indexed spec.security_profile wanted) in
    let same : (k : String) → get cases k ≡ find_case catalogue.test_cases k =
      λ k. get-index catalogue.test_cases cases k made.indexed in
    let named : ids ≡ ids_of plan.test_cases =
      ids_of-cases_at catalogue.test_cases cases same ids plan.test_cases made.found in
    let at_id : get_elem? ids n ≡ some c.test_case_id =
      subst (λ l. get_elem? l n ≡ some c.test_case_id) (sym named)
        (get_elem?-ids_of plan.test_cases n c at) in
    let (i, among, stored) = cases_at_place cases ids plan.test_cases n c made.found at in
    let own : find_case catalogue.test_cases i ≡ some c = sym (same i) ∙ stored in
    let is_own : c.test_case_id ≡ i = find_case_id catalogue.test_cases i c own in
    let found : find_case catalogue.test_cases c.test_case_id ≡ some c =
      subst (λ j. find_case catalogue.test_cases j ≡ some c) (sym is_own) own in
    let earlier : take n ids ≡ ids_of (take n plan.test_cases) =
      ap (take n) named ∙ take-ids_of n plan.test_cases in
    let (new, after) =
      subst (λ b. StandsAfter indexed b c.test_case_id) earlier
        (at_place indexed [] ids n c.test_case_id order.order at_id) in
    let kept =
      compile_selection-deselected catalogue.test_cases (selection_spec spec) (ids_at_ref selected)
        sel i made.chosen in
    (
      found,
      ground (arith, is_own),
      new,
      subst (λ o. All (λ d. elem d (ids_of (take n plan.test_cases)) ≡ true) (deps_of o))
          (get-index catalogue.test_cases indexed c.test_case_id chosen.indexed ∙ found) after,
    )
