-- ===== src/Catalogue/Selection/Compiled.antt =====
-- What a selection that succeeds contains.
use mathlib.Core.Path.{subst}
use conformance_suite_v.Base.{
  map, String, ◌≡◌, refl, ap, ◌↔◌, Bool, true, false, not, ◌&&◌, Option, none, some, List, [], ◌∷◌,
  Result, ok, err, ◌>>=◌, >>=-eq-ok, >>-eq-ok, arith, eq_iff, str_eq, if◌then◌else◌, elem, filter,
  All, is_some,
}
use conformance_suite_v.Base.Dict.{Dict, get, put, keys, get-put}
use conformance_suite_v.Base.Dict.Distinct.{elem-keys}
use conformance_suite_v.Catalogue.{
  EndpointRef, CatalogueTestCase, CatalogueError, catalogue_cases_by_id, add_cases,
}
use conformance_suite_v.Catalogue.Ordering.{ordered_case_ids, roots}
use conformance_suite_v.Catalogue.Ordering.Total.{IsCaseOrder, IsCaseResult, ordered_case_ids_sound}
use conformance_suite_v.Catalogue.Selection.{
  TestPlanSpec, AssertionOverride, ApplicabilityDecision, decide, directly_applicable,
  reject_invalid_deselection, reject_dependencies, validate_assertion_overrides, Selection,
  decisions_from, traceability_decision, no_reasons, compile_selection,
}
use conformance_suite_v.Catalogue.Selection.Applicable.{is_applicable, decide-is_applicable}

-- the case that stands first under an identifier
unfoldable pub find_case : List CatalogueTestCase → String → Option CatalogueTestCase
find_case [] k = none
find_case (c ∷ cs) k = if str_eq c.test_case_id k then some c else find_case cs k

pub get-add_cases :
    (cs : List CatalogueTestCase) (d cases : Dict CatalogueTestCase) (k : String)
    → add_cases cs d ≡ ok cases
    → get cases k ≡ (if is_some (get d k) then get d k else find_case cs k)
unfolding add_cases find_case
get-add_cases [] d cases k h = ground (arith)
get-add_cases (c ∷ cs) d cases k h = ground (
  arith,
  eq_iff c.test_case_id k,
  get-put d c.test_case_id k c,
  get-add_cases cs (put d c.test_case_id c) cases k,
)

abbrev selected_of : (CatalogueTestCase → ApplicabilityDecision) → Option CatalogueTestCase → Bool
selected_of f none = false
selected_of f (some c) = (f c).selected

first_selected :
    (f : CatalogueTestCase → ApplicabilityDecision) (t : Bool) (b c : CatalogueTestCase)
    (o : Option CatalogueTestCase)
    → (if t then some b else o) ≡ some c
    → t ≡ true
    → (f b).selected ≡ (f c).selected
first_selected f true b c o h e = ap (selected_of f) h
first_selected f false b c o h e = absurd (cc)

at_same {ℓ} : {A : Type ℓ} (p : String → A) (k x : String) → str_eq k x ≡ true → p x ≡ p k
at_same p k x e = rw ((eq_iff k x).0 e) refl

elem-directly_applicable :
    (decide_case : CatalogueTestCase → ApplicabilityDecision) (cs : List CatalogueTestCase)
    (k : String) (c : CatalogueTestCase)
    → find_case cs k ≡ some c
    → (decide_case c).selected ≡ true
    → elem k (directly_applicable decide_case cs) ≡ true
unfolding directly_applicable find_case elem
elem-directly_applicable f [] k c h s = absurd (cc)
elem-directly_applicable f (b ∷ cs) k c h s = ground (
  arith,
  eq_iff k b.test_case_id,
  eq_iff b.test_case_id k,
  elem-directly_applicable f cs k c,
  first_selected f (str_eq b.test_case_id k) b c (find_case cs k) h,
)

reject-known :
    (ids : List String) (cases : Dict CatalogueTestCase) (direct_ids : List String) (k : String)
    (c : CatalogueTestCase)
    → reject_invalid_deselection ids cases direct_ids ≡ ok tt
    → get cases k ≡ some c
    → (c.mandatory && elem k ids) ≡ false
unfolding reject_invalid_deselection elem
reject-known [] cases direct_ids k c h g = ground arith
reject-known (i ∷ ids) cases direct_ids k c h g =
    ground (arith, at_same (λ j. get cases j) k i, reject-known ids cases direct_ids k c)

elem-filter :
    (p : String → Bool) (xs : List String) (k : String) → elem k (filter p xs) ≡ (elem k xs && p k)
unfolding elem filter
elem-filter p [] k = refl
elem-filter p (x ∷ xs) k = ground (arith, at_same p k x, elem-filter p xs k)

reject-none :
    (p : String → Bool) (xs : List String) (k : String)
    → reject_dependencies (filter p xs) ≡ ok tt
    → (elem k xs && p k) ≡ false
unfolding elem filter
reject-none p [] k h = refl
reject-none p (x ∷ xs) k h = ground (arith, at_same p k x, reject-none p xs k)

All-elem :
    (P : String → Bool) (xs : List String) (k : String)
    → All (λ i. P i ≡ true) xs
    → elem k xs ≡ true
    → P k ≡ true
unfolding elem
All-elem P [] k h e = absurd (cc)
All-elem P (x ∷ xs) k h e = ground (arith, at_same P k x, h.0, All-elem P xs k h.1)

-- the calls that a selection which succeeds has made
pub record IsCompiled (test_cases : List CatalogueTestCase) (spec : TestPlanSpec)
    (capabilities : EndpointRef → List String) (cases : Dict CatalogueTestCase)
    (edges : Dict (List String)) (sel : Selection) : Type 0 where
  pub indexed : catalogue_cases_by_id test_cases ≡ ok cases
  pub allowed :
      reject_invalid_deselection spec.deselected_test_case_ids cases
        (directly_applicable (decide spec capabilities) test_cases)
      ≡ ok tt
  pub ordered :
      ordered_case_ids cases spec.security_profile (
        filter
          (λ i. not (elem i spec.deselected_test_case_ids))
          (directly_applicable (decide spec capabilities) test_cases))
      ≡ ok (sel.generated_test_case_ids, edges)
  pub kept :
      reject_dependencies
        (filter (λ i. elem i spec.deselected_test_case_ids) sel.generated_test_case_ids)
      ≡ ok tt
  pub overridden :
      validate_assertion_overrides cases sel.generated_test_case_ids spec.assertion_overrides
      ≡ ok sel.non_certifying_reasons
  pub flag : sel.certifying ≡ no_reasons sel.non_certifying_reasons

ok_inj : (s t : Selection) → Path (Result CatalogueError Selection) (ok s) (ok t) → s ≡ t
ok_inj s t h = cc

pub compiled :
    (test_cases : List CatalogueTestCase) (spec : TestPlanSpec)
    (capabilities : EndpointRef → List String) (sel : Selection)
    → compile_selection test_cases spec capabilities ≡ ok sel
    → (cases : Dict CatalogueTestCase) × (edges : Dict (List String)) × IsCompiled test_cases spec
        capabilities cases edges sel
unfolding compile_selection
compiled test_cases spec capabilities sel h =
    let (cases, indexed, h1) = >>=-eq-ok (catalogue_cases_by_id test_cases) _ h in
    let (allowed, h2) = >>-eq-ok (reject_invalid_deselection _ _ _) _ h1 in
    let ((ordered, edges), o, h3) = >>=-eq-ok (ordered_case_ids _ _ _) _ h2 in
    let (kept, h4) =
      >>-eq-ok (reject_dependencies (filter (λ i. elem i spec.deselected_test_case_ids) ordered)) _
        h3 in
    let (reasons, overridden, h5) =
      >>=-eq-ok (validate_assertion_overrides cases ordered spec.assertion_overrides) _ h4 in
    let made : Selection = record {
      generated_test_case_ids = ordered;
      applicability_decisions =
          map (traceability_decision ordered edges spec.deselected_test_case_ids)
            (decisions_from (decide spec capabilities) test_cases []);
      non_certifying_reasons = reasons;
      certifying = no_reasons reasons;
    } in
    let same : made ≡ sel = ok_inj made sel h5 in
    rw (← same) (
      cases,
      edges,
      record {
        indexed = indexed;
        allowed = allowed;
        ordered = o;
        kept = kept;
        overridden = overridden;
        flag = refl;
      },
    )

is_some-some : {A : Type 0} (o : Option A) (a : A) → o ≡ some a → is_some o ≡ true
is_some-some o a h = rw h refl

-- When the selection succeeds, a case of the catalogue that applies is compiled exactly if the
-- participant did not deselect it, and a mandatory one cannot have been deselected.
pub compile_selection-applicable :
    (test_cases : List CatalogueTestCase) (spec : TestPlanSpec)
    (capabilities : EndpointRef → List String) (sel : Selection) (k : String)
    (c : CatalogueTestCase)
    → compile_selection test_cases spec capabilities ≡ ok sel
    → find_case test_cases k ≡ some c
    → is_applicable spec capabilities c ≡ true
    → (elem k sel.generated_test_case_ids ≡ not (elem k spec.deselected_test_case_ids))
      × ((c.mandatory && elem k spec.deselected_test_case_ids) ≡ false)
unfolding catalogue_cases_by_id
compile_selection-applicable test_cases spec capabilities sel k c h found applies =
    let (cases, edges, made) = compiled test_cases spec capabilities sel h in
    let deselected = spec.deselected_test_case_ids in
    let direct = directly_applicable (decide spec capabilities) test_cases in
    let wanted = filter (λ i. not (elem i deselected)) direct in
    let stored : get cases k ≡ some c =
      rw (get-add_cases test_cases [] cases k made.indexed) (unfold get in found) in
    let in_direct : elem k direct ≡ true =
      elem-directly_applicable (decide spec capabilities) test_cases k c found
        (rw (decide-is_applicable spec capabilities c) applies) in
    let order : IsCaseOrder cases spec.security_profile wanted sel.generated_test_case_ids =
      subst (λ r. IsCaseResult cases spec.security_profile wanted r) made.ordered
        (ordered_case_ids_sound cases spec.security_profile wanted) in
    let in_roots : elem k (roots cases spec.security_profile wanted) ≡ not (elem k deselected) =
      rw
        (
          elem-filter (λ i. elem i wanted) (keys cases) k,
          elem-keys cases k,
          elem-filter (λ i. not (elem i deselected)) direct k,
          stored,
          in_direct,
        )
        refl in
    (
      ground (
        arith,
        All-elem (λ i. elem i sel.generated_test_case_ids)
            (roots cases spec.security_profile wanted) k order.complete,
        in_roots,
        reject-none (λ i. elem i deselected) sel.generated_test_case_ids k made.kept,
      ),
      reject-known deselected cases direct k c made.allowed stored,
    )

-- When the selection succeeds, no case that the participant deselected is compiled, not even as a
-- dependency of another.
pub compile_selection-deselected :
    (test_cases : List CatalogueTestCase) (spec : TestPlanSpec)
    (capabilities : EndpointRef → List String) (sel : Selection) (k : String)
    → compile_selection test_cases spec capabilities ≡ ok sel
    → (elem k sel.generated_test_case_ids && elem k spec.deselected_test_case_ids) ≡ false
compile_selection-deselected test_cases spec capabilities sel k h =
    let (cases, edges, made) = compiled test_cases spec capabilities sel h in
    reject-none (λ i. elem i spec.deselected_test_case_ids) sel.generated_test_case_ids k made.kept

no_reasons_iff : (os : List AssertionOverride) → (no_reasons os ≡ true) ↔ (os ≡ [])
no_reasons_iff [] = (λ h. refl, λ h. refl)
no_reasons_iff (o ∷ os) = (λ h. absurd (cc), λ h. absurd (cc))

override_step :
    (o : AssertionOverride) (overrides reasons : List AssertionOverride) (a b : Bool)
    (x y : CatalogueError) (r : Result CatalogueError (List AssertionOverride))
    → ((rs : List AssertionOverride) → r ≡ ok rs → rs ≡ overrides)
    → (if not a then err x else if not b then err y else (r >>= λ rs. ok (o ∷ rs))) ≡ ok reasons
    → reasons ≡ o ∷ overrides
override_step o overrides reasons true true x y (ok rs) ih h = cc (ih rs refl)
override_step o overrides reasons true true x y (err e) ih h = absurd (cc)
override_step o overrides reasons true false x y r ih h = absurd (cc)
override_step o overrides reasons false b x y r ih h = absurd (cc)

overrides-reasons :
    (cases : Dict CatalogueTestCase) (ordered : List String)
    (overrides reasons : List AssertionOverride)
    → validate_assertion_overrides cases ordered overrides ≡ ok reasons
    → reasons ≡ overrides
unfolding validate_assertion_overrides
overrides-reasons cases ordered [] reasons h = cc
overrides-reasons cases ordered (o ∷ overrides) reasons h =
    override_step o overrides reasons (elem o.test_case_id ordered) _ _ _
      (validate_assertion_overrides cases ordered overrides)
      (λ rs e. overrides-reasons cases ordered overrides rs e) h

-- When the selection succeeds, its reasons against certification are the overrides of the plan, and
-- it certifies exactly if there is none.
pub compile_selection-certifying :
    (test_cases : List CatalogueTestCase) (spec : TestPlanSpec)
    (capabilities : EndpointRef → List String) (sel : Selection)
    → compile_selection test_cases spec capabilities ≡ ok sel
    → (sel.non_certifying_reasons ≡ spec.assertion_overrides)
      × ((sel.certifying ≡ true) ↔ (spec.assertion_overrides ≡ []))
compile_selection-certifying test_cases spec capabilities sel h =
    let (cases, edges, made) = compiled test_cases spec capabilities sel h in
    let same =
      overrides-reasons cases sel.generated_test_case_ids spec.assertion_overrides
        sel.non_certifying_reasons made.overridden in
    (same, rw (made.flag, same) (no_reasons_iff spec.assertion_overrides))
