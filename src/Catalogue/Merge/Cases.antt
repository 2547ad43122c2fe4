-- ===== src/Catalogue/Merge/Cases.antt =====
-- The cases of a merged plan.
use mathlib.Core.Path.{subst}
use conformance_suite_v.Base.{
  String, ◌≡◌, ◌↔◌, refl, sym, ap, ◌∙◌, false, List, [], ◌∷◌, ◌++◌, map, Result, ok, ◌>>=◌,
  >>=-eq-ok, arith, elem, Bool-cases, inl, inr,
}
use conformance_suite_v.Catalogue.{CatalogueTestCase, CatalogueError}
use conformance_suite_v.Catalogue.Compiler.{CompiledTestPlan}
use conformance_suite_v.Catalogue.Merge.{
  merge_cases_of, merge_plans_cases, merge_compiled_test_cases, concat_of,
}

abbrev pub ids_of : List CatalogueTestCase → List String
ids_of cs = map (λ (c : CatalogueTestCase). c.test_case_id) cs

-- no identifier is among `seen` or twice
abbrev pub Fresh : List String → List CatalogueTestCase → Type 0
Fresh seen [] = Unit
Fresh seen (c ∷ cs) = (elem c.test_case_id seen ≡ false) × Fresh (c.test_case_id ∷ seen) cs

-- the identifiers that have been seen after the cases
abbrev seen_after : List String → List CatalogueTestCase → List String
seen_after seen [] = seen
seen_after seen (c ∷ cs) = seen_after (c.test_case_id ∷ seen) cs

merge_cases_of-Fresh :
    (cs : List CatalogueTestCase) (seen : List String)
    → Fresh seen cs
    → merge_cases_of cs seen ≡ ok (seen_after seen cs, cs)
unfolding merge_cases_of
merge_cases_of-Fresh [] seen f = refl
merge_cases_of-Fresh (c ∷ cs) seen f =
    rw (f.0, merge_cases_of-Fresh cs (c.test_case_id ∷ seen) f.1) refl

abbrev with_case :
    CatalogueTestCase
    → List String × List CatalogueTestCase
    → Result CatalogueError (List String × List CatalogueTestCase)
with_case c m = ok (m.0, c ∷ m.1)

merge_new :
    (c : CatalogueTestCase) (cs : List CatalogueTestCase) (seen later : List String)
    (merged : List CatalogueTestCase)
    → elem c.test_case_id seen ≡ false
    → merge_cases_of (c ∷ cs) seen ≡ ok (later, merged)
    → (merge_cases_of cs (c.test_case_id ∷ seen) >>= with_case c) ≡ ok (later, merged)
unfolding merge_cases_of
merge_new c cs seen later merged new h = ground arith

merge_cons :
    (c : CatalogueTestCase) (cs : List CatalogueTestCase) (seen later : List String)
    (merged : List CatalogueTestCase)
    → merge_cases_of (c ∷ cs) seen ≡ ok (later, merged)
    → (elem c.test_case_id seen ≡ false)
      × (rest : List CatalogueTestCase) × (merge_cases_of cs (c.test_case_id ∷ seen)
          ≡ ok (later, rest))
      × (c ∷ rest ≡ merged)
unfolding merge_cases_of
merge_cons c cs seen later merged h = elim (Bool-cases (elem c.test_case_id seen)) [
  | inl twice ↦ absurd (ground arith)
  | inr new ↦
      let ((l, rest), one, built) =
        >>=-eq-ok (merge_cases_of cs (c.test_case_id ∷ seen)) (with_case c)
          (merge_new c cs seen later merged new h) in
      let same : l ≡ later = cc in
      (
        new,
        rest,
        subst (λ x. merge_cases_of cs (c.test_case_id ∷ seen) ≡ ok (x, rest)) same one,
        cc,
      )
]

-- a merge that succeeds gives the cases back, and each of them is new
Fresh-merge_cases_of :
    (cs : List CatalogueTestCase) (seen later : List String) (merged : List CatalogueTestCase)
    → merge_cases_of cs seen ≡ ok (later, merged)
    → (cs ≡ merged) × (seen_after seen cs ≡ later) × Fresh seen cs
unfolding merge_cases_of
Fresh-merge_cases_of [] seen later merged h = (cc, cc, tt)
Fresh-merge_cases_of (c ∷ cs) seen later merged h =
    let (new, rest, one, built) = merge_cons c cs seen later merged h in
    let (same, after, fresh) = Fresh-merge_cases_of cs (c.test_case_id ∷ seen) later rest one in
    (ap (λ l. c ∷ l) same ∙ built, after, (new, fresh))

Fresh-append :
    (xs ys : List CatalogueTestCase) (seen : List String)
    → Fresh seen xs
    → Fresh (seen_after seen xs) ys
    → Fresh seen (xs ++ ys)
Fresh-append [] ys seen f g = g
Fresh-append (c ∷ xs) ys seen f g = (f.0, Fresh-append xs ys (c.test_case_id ∷ seen) f.1 g)

append-Fresh :
    (xs ys : List CatalogueTestCase) (seen : List String)
    → Fresh seen (xs ++ ys)
    → Fresh seen xs × Fresh (seen_after seen xs) ys
append-Fresh [] ys seen f = (tt, f)
append-Fresh (c ∷ xs) ys seen f =
    let (g, h) = append-Fresh xs ys (c.test_case_id ∷ seen) f.1 in ((f.0, g), h)

abbrev pub cases_of : CompiledTestPlan → List CatalogueTestCase
cases_of p = p.test_cases

merged_plans :
    (plans : List CompiledTestPlan) (seen : List String) (cs : List CatalogueTestCase)
    → merge_plans_cases plans seen ≡ ok cs
    → (concat_of cases_of plans ≡ cs) × Fresh seen (concat_of cases_of plans)
unfolding merge_plans_cases concat_of
merged_plans [] seen cs h = (cc, tt)
merged_plans (p ∷ plans) seen cs h =
    let ((later, first), one, h1) = >>=-eq-ok (merge_cases_of p.test_cases seen) _ h in
    let (others, rest, built) =
      >>=-eq-ok (merge_plans_cases plans later) (λ others. ok (first ++ others)) h1 in
    let (same, after, fresh) = Fresh-merge_cases_of p.test_cases seen later first one in
    let (same_rest, fresh_rest) = merged_plans plans later others rest in
    (
      ap (λ l. l ++ concat_of cases_of plans) same ∙ ap (λ l. first ++ l) same_rest ∙ cc,
      Fresh-append p.test_cases (concat_of cases_of plans) seen fresh
          (subst (λ l. Fresh l (concat_of cases_of plans)) (sym after) fresh_rest),
    )

merges_plans :
    (plans : List CompiledTestPlan) (seen : List String)
    → Fresh seen (concat_of cases_of plans)
    → merge_plans_cases plans seen ≡ ok (concat_of cases_of plans)
unfolding merge_plans_cases concat_of
merges_plans [] seen f = refl
merges_plans (p ∷ plans) seen f =
    let (first, rest) = append-Fresh p.test_cases (concat_of cases_of plans) seen f in
    rw
      (
        merge_cases_of-Fresh p.test_cases seen first,
        merges_plans plans (seen_after seen p.test_cases) rest,
      )
      refl

-- The merge of the areas' plans gives a list of cases exactly if it is that of all their cases, one
-- area after the other, and none of these has the identifier of one before it.
pub merge_compiled_test_cases_iff :
    (plans : List CompiledTestPlan) (cs : List CatalogueTestCase)
    → (merge_compiled_test_cases plans ≡ ok cs)
      ↔ ((concat_of cases_of plans ≡ cs) × Fresh [] (concat_of cases_of plans))
unfolding merge_compiled_test_cases
merge_compiled_test_cases_iff plans cs =
    (merged_plans plans [] cs, λ h. merges_plans plans [] h.1 ∙ ap ok h.0)
