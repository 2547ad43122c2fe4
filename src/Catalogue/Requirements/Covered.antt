-- ===== src/Catalogue/Requirements/Covered.antt =====
-- What the combined requirements keep of each case's requirement.
use mathlib.Core.Path.{subst}
use conformance_suite_v.Base.{
  ℕ, zero, suc, String, ◌≡◌, refl, sym, true, not, ◌||◌, Option, none, some, List, [], ◌∷◌, ok,
  ◌>>=◌, >>=-eq-ok, Bool-cases, inl, inr, arith, eq_iff, eq_refl, str_eq, elem, All,
}
use conformance_suite_v.Base.Split.{get_elem?}
use conformance_suite_v.Base.Dict.{Dict, get, put, keys, get-put, All-put, All-get}
use conformance_suite_v.Base.Dict.Distinct.{Distinct, Distinct-put}
use conformance_suite_v.Catalogue.{RuntimeInputRequirement, CatalogueTestCase}
use conformance_suite_v.Catalogue.Requirements.{merged, requirements_of}
use conformance_suite_v.Catalogue.Requirements.Combined.{
  merge_with, merge_requirement, merge_requirements, merge_cases,
}

-- The entry `e` requires what `r` requires, and hides what `r` hides.
pub record Covers (e : RuntimeInputRequirement) (r : RuntimeInputRequirement) : Type 0 where
  pub same_id : e.input_id ≡ r.input_id
  pub same_type : e.input_type ≡ r.input_type
  pub same_source : e.source ≡ r.source
  pub requires : (not r.required || e.required) ≡ true
  pub hides : (not r.sensitive || e.sensitive) ≡ true

-- The dictionary has an entry that covers `r`.
abbrev pub Covered : Dict RuntimeInputRequirement → RuntimeInputRequirement → Type 0
Covered d r = (e : RuntimeInputRequirement) × (get d r.input_id ≡ some e) × Covers e r

-- Each entry stands under its identifier, and each identifier once.
abbrev pub IsKeyed : String × RuntimeInputRequirement → Type 0
IsKeyed (k, e) = e.input_id ≡ k

pub record IsIndexed (d : Dict RuntimeInputRequirement) : Type 0 where
  pub keyed : All IsKeyed d
  pub distinct : Distinct (keys d)

pub no_entries-IsIndexed : IsIndexed []
unfolding keys
no_entries-IsIndexed = record { keyed = tt; distinct = tt }

Covers-refl : (r : RuntimeInputRequirement) → Covers r r
Covers-refl r = ground arith

merged-Covers_old : (e r s : RuntimeInputRequirement) → Covers e r → Covers (merged e s) r
merged-Covers_old e r s c = ground arith

merged-Covers_new :
    (e s : RuntimeInputRequirement)
    → e.input_id ≡ s.input_id
    → e.input_type ≡ s.input_type
    → e.source ≡ s.source
    → Covers (merged e s) s
merged-Covers_new e s h t u = ground arith

-- The cases of a merge that went well.
merge_requirement_ok :
    (d d' : Dict RuntimeInputRequirement) (r : RuntimeInputRequirement)
    → merge_requirement d r ≡ ok d'
    → merge_with d r (get d r.input_id) ≡ ok d'
unfolding merge_requirement
merge_requirement_ok d d' r h = ground arith

merge_with_old :
    (d d' : Dict RuntimeInputRequirement) (r e : RuntimeInputRequirement)
    → merge_with d r (some e) ≡ ok d'
    → (e.input_type ≡ r.input_type) × (e.source ≡ r.source) × (d' ≡ put d r.input_id (merged e r))
merge_with_old d d' r e h =
    ground (arith, eq_iff e.input_type r.input_type, eq_iff e.source r.source)

put-Covered_same :
    (d : Dict RuntimeInputRequirement) (k : String) (e e' r : RuntimeInputRequirement)
    → get d k ≡ some e
    → (Covers e r → Covers e' r)
    → Covered d r
    → Covered (put d k e') r
put-Covered_same d k e e' r h keep (f, found, c) = elim (Bool-cases (str_eq k r.input_id)) [
  | inl same ↦ (
    e',
    rw (get-put d k r.input_id e', same) refl,
    keep (subst (λ x. Covers x r) (ground (arith, eq_iff k r.input_id)) c),
  )
  | inr other ↦ (f, rw (get-put d k r.input_id e', other) found, c)
]

put-Covered_new :
    (d : Dict RuntimeInputRequirement) (k : String) (e' r : RuntimeInputRequirement)
    → get d k ≡ none
    → Covered d r
    → Covered (put d k e') r
put-Covered_new d k e' r h (f, found, c) =
    (f, ground (arith, get-put d k r.input_id e', eq_iff k r.input_id), c)

get-put_self :
    (d : Dict RuntimeInputRequirement) (k : String) (e : RuntimeInputRequirement)
    → get (put d k e) k ≡ some e
get-put_self d k e = rw (get-put d k k e, eq_refl k) refl

keeps :
    (d d' : Dict RuntimeInputRequirement) (r s : RuntimeInputRequirement)
    (found : Option RuntimeInputRequirement)
    → get d s.input_id ≡ found
    → merge_with d s found ≡ ok d'
    → Covered d r
    → Covered d' r
keeps d d' r s none h m c = subst (λ x. Covered x r) (cc) (put-Covered_new d s.input_id s r h c)
keeps d d' r s (some e) h m c =
    subst (λ x. Covered x r) (sym (merge_with_old d d' s e m).2)
      (put-Covered_same d s.input_id e (merged e s) r h (merged-Covers_old e r s) c)

adds :
    (d d' : Dict RuntimeInputRequirement) (s : RuntimeInputRequirement)
    (found : Option RuntimeInputRequirement)
    → get d s.input_id ≡ found
    → merge_with d s found ≡ ok d'
    → IsIndexed d
    → Covered d' s
adds d d' s none h m v =
    subst (λ x. Covered x s) (cc) (s, get-put_self d s.input_id s, Covers-refl s)
adds d d' s (some e) h m v =
    let (t, u, same) = merge_with_old d d' s e m in
    subst (λ x. Covered x s) (sym same)
      (
        merged e s,
        get-put_self d s.input_id (merged e s),
        merged-Covers_new e s (All-get IsKeyed d s.input_id e v.keyed h) t u,
      )

put-IsIndexed :
    (d : Dict RuntimeInputRequirement) (k : String) (e : RuntimeInputRequirement)
    → e.input_id ≡ k
    → IsIndexed d
    → IsIndexed (put d k e)
put-IsIndexed d k e h v = record {
  keyed = All-put IsKeyed d k e h v.keyed;
  distinct = Distinct-put d k e v.distinct;
}

indexes :
    (d d' : Dict RuntimeInputRequirement) (s : RuntimeInputRequirement)
    (found : Option RuntimeInputRequirement)
    → get d s.input_id ≡ found
    → merge_with d s found ≡ ok d'
    → IsIndexed d
    → IsIndexed d'
indexes d d' s none h m v = subst IsIndexed (cc) (put-IsIndexed d s.input_id s refl v)
indexes d d' s (some e) h m v =
    subst IsIndexed (sym (merge_with_old d d' s e m).2)
      (put-IsIndexed d s.input_id (merged e s) (All-get IsKeyed d s.input_id e v.keyed h) v)

module _ (d d' : Dict RuntimeInputRequirement) where
  keeps_one :
      (s r : RuntimeInputRequirement) → merge_requirement d s ≡ ok d' → Covered d r → Covered d' r
  keeps_one s r m c = keeps d d' r s (get d s.input_id) refl (merge_requirement_ok d d' s m) c

  adds_one :
      (s : RuntimeInputRequirement) → merge_requirement d s ≡ ok d' → IsIndexed d → Covered d' s
  adds_one s m v = adds d d' s (get d s.input_id) refl (merge_requirement_ok d d' s m) v

  indexes_one :
      (s : RuntimeInputRequirement) → merge_requirement d s ≡ ok d' → IsIndexed d → IsIndexed d'
  indexes_one s m v = indexes d d' s (get d s.input_id) refl (merge_requirement_ok d d' s m) v

keeps_all :
    (rs : List RuntimeInputRequirement) (d d' : Dict RuntimeInputRequirement)
    (r : RuntimeInputRequirement)
    → merge_requirements d rs ≡ ok d'
    → Covered d r
    → Covered d' r
unfolding merge_requirements
keeps_all [] d d' r m c = subst (λ x. Covered x r) (cc) c
keeps_all (s ∷ rs) d d' r m c =
    let (next, one, rest) = >>=-eq-ok (merge_requirement d s) (λ x. merge_requirements x rs) m in
    keeps_all rs next d' r rest (keeps_one d next s r one c)

indexes_all :
    (rs : List RuntimeInputRequirement) (d d' : Dict RuntimeInputRequirement)
    → merge_requirements d rs ≡ ok d'
    → IsIndexed d
    → IsIndexed d'
unfolding merge_requirements
indexes_all [] d d' m v = subst IsIndexed (cc) v
indexes_all (s ∷ rs) d d' m v =
    let (next, one, rest) = >>=-eq-ok (merge_requirement d s) (λ x. merge_requirements x rs) m in
    indexes_all rs next d' rest (indexes_one d next s one v)

adds_all :
    (rs : List RuntimeInputRequirement) (n : ℕ) (d d' : Dict RuntimeInputRequirement)
    (r : RuntimeInputRequirement)
    → merge_requirements d rs ≡ ok d'
    → get_elem? rs n ≡ some r
    → IsIndexed d
    → Covered d' r
unfolding merge_requirements
adds_all [] n d d' r m h v = absurd (cc)
adds_all (s ∷ rs) zero d d' r m h v =
    let (next, one, rest) = >>=-eq-ok (merge_requirement d s) (λ x. merge_requirements x rs) m in
    subst (λ x. Covered d' x) (cc) (keeps_all rs next d' s rest (adds_one d next s one v))
adds_all (s ∷ rs) (suc n) d d' r m h v =
    let (next, one, rest) = >>=-eq-ok (merge_requirement d s) (λ x. merge_requirements x rs) m in
    adds_all rs n next d' r rest h (indexes_one d next s one v)

module _ (cases : Dict CatalogueTestCase) where
  -- What a successful merge of one more case went through.
  case_merged :
      (d d' : Dict RuntimeInputRequirement) (i : String) (ids : List String)
      → merge_cases cases d (i ∷ ids) ≡ ok d'
      → (rs : List RuntimeInputRequirement) × (next : Dict RuntimeInputRequirement)
        × (requirements_of i (get cases i) ≡ ok rs)
        × (merge_requirements d rs ≡ ok next)
        × (merge_cases cases next ids ≡ ok d')
  unfolding merge_cases
  case_merged d d' i ids m =
      let (rs, found, rest) =
        >>=-eq-ok (requirements_of i (get cases i))
          (λ rs. merge_requirements d rs >>= λ next. merge_cases cases next ids) m in
      let (next, one, others) =
        >>=-eq-ok (merge_requirements d rs) (λ next. merge_cases cases next ids) rest in
      (rs, next, found, one, others)

  merge_cases_nil : (d d' : Dict RuntimeInputRequirement) → merge_cases cases d [] ≡ ok d' → d ≡ d'
  unfolding merge_cases
  merge_cases_nil d d' m = cc

  keeps_cases :
      (ids : List String) (d d' : Dict RuntimeInputRequirement) (r : RuntimeInputRequirement)
      → merge_cases cases d ids ≡ ok d'
      → Covered d r
      → Covered d' r
  keeps_cases [] d d' r m c = subst (λ x. Covered x r) (merge_cases_nil d d' m) c
  keeps_cases (i ∷ ids) d d' r m c =
      let (rs, next, found, one, rest) = case_merged d d' i ids m in
      keeps_cases ids next d' r rest (keeps_all rs d next r one c)

  pub merge_cases-IsIndexed :
      (ids : List String) (d d' : Dict RuntimeInputRequirement)
      → merge_cases cases d ids ≡ ok d'
      → IsIndexed d
      → IsIndexed d'
  merge_cases-IsIndexed [] d d' m v = subst IsIndexed (merge_cases_nil d d' m) v
  merge_cases-IsIndexed (i ∷ ids) d d' m v =
      let (rs, next, found, one, rest) = case_merged d d' i ids m in
      merge_cases-IsIndexed ids next d' rest (indexes_all rs d next one v)

  pub merge_cases-Covered :
      (ids : List String) (d d' : Dict RuntimeInputRequirement) (i : String) (c : CatalogueTestCase)
      (n : ℕ) (r : RuntimeInputRequirement)
      → merge_cases cases d ids ≡ ok d'
      → elem i ids ≡ true
      → get cases i ≡ some c
      → get_elem? c.runtime_input_requirements n ≡ some r
      → IsIndexed d
      → Covered d' r
  unfolding elem
  merge_cases-Covered [] d d' i c n r m here h at v = absurd (cc)
  merge_cases-Covered (j ∷ ids) d d' i c n r m here h at v =
      let (rs, next, found, one, rest) = case_merged d d' j ids m in
      elim (Bool-cases (elem i ids)) [
        | inl later ↦
            merge_cases-Covered ids next d' i c n r rest later h at (indexes_all rs d next one v)
        | inr now ↦
            keeps_cases ids next d' r rest
              (adds_all rs n d next r one (ground (arith, eq_iff i j, eq_iff j i)) v)
      ]
