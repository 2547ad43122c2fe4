-- ===== src/Catalogue/RuntimeInputs/Snapshot.antt =====
-- What a snapshot of the runtime inputs says of each requirement of a compiled case.
use mathlib.Core.Path.{subst}
use conformance_suite_v.Base.{
  ℕ, zero, suc, String, ◌≡◌, ◌≢◌, refl, sym, ◌∙◌, true, Option, none, some, List, [], ◌∷◌, ok,
  ◌>>=◌, ◌>>◌, >>=-eq-ok, >>-eq-ok, arith, eq_iff, str_eq, if◌then◌else◌, elem, All, Bool-cases,
  inl, inr,
}
use conformance_suite_v.Base.Json.{Json, null, bool, num, str, arr, obj}
use conformance_suite_v.Base.Split.{get_elem?}
use conformance_suite_v.Base.Dict.{Dict, get, keys, values}
use conformance_suite_v.Base.Dict.Distinct.{Distinct, elem-keys}
use conformance_suite_v.Catalogue.{RuntimeInputRequirement, CatalogueTestCase}
use conformance_suite_v.Catalogue.Requirements.{combined_runtime_requirements}
use conformance_suite_v.Catalogue.Requirements.Combined.{
  merge_cases, combined_runtime_requirements-merge_cases,
}
use conformance_suite_v.Catalogue.Requirements.Covered.{
  Covers, IsIndexed, no_entries-IsIndexed, merge_cases-IsIndexed, merge_cases-Covered,
}
use conformance_suite_v.Catalogue.RuntimeInputs.{
  RuntimeInputTrace, validate_runtime_input_value, not_null, given, trace_plan, trace_elsewhere,
  trace_input, trace_inputs, reject_unsupported_headers, runtime_input_snapshot,
}

-- an entry among the values stands under its identifier
pub values_keyed :
    {V : Type 0} (id_of : V → String) (d : Dict V) (m : ℕ) (e : V)
    → All (λ (p : String × V). id_of p.1 ≡ p.0) d
    → Distinct (keys d)
    → get_elem? (values d) m ≡ some e
    → get d (id_of e) ≡ some e
unfolding get values keys
values_keyed id_of [] m e h u at = absurd (cc)
values_keyed id_of ((k, v) ∷ d) zero e h u at = ground (arith, eq_iff k (id_of e))
values_keyed id_of ((k, v) ∷ d) (suc m) e h u at =
    ground (arith, values_keyed id_of d m e h.1 u.1 at, elem-keys d k, eq_iff k (id_of e))

values_place :
    (d : Dict RuntimeInputRequirement) (k : String) (e : RuntimeInputRequirement)
    → get d k ≡ some e
    → (m : ℕ) × (get_elem? (values d) m ≡ some e)
unfolding get values
values_place [] k e h = absurd (cc)
values_place ((j, v) ∷ d) k e h = elim (Bool-cases (str_eq j k)) [
  | inl now ↦ (0, ground arith)
  | inr later ↦ let (m, at) = values_place d k e (ground arith) in (suc m, at)
]

module _ (https_url_error : String → Option String) (inputs : Dict Json) where
  traced_nil :
      (ts : List RuntimeInputTrace) → trace_inputs https_url_error inputs [] ≡ ok ts → [] ≡ ts
  unfolding trace_inputs
  traced_nil ts h = cc

  traced_cons :
      (r : RuntimeInputRequirement) (rs : List RuntimeInputRequirement)
      (ts : List RuntimeInputTrace)
      → trace_inputs https_url_error inputs (r ∷ rs) ≡ ok ts
      → (first : RuntimeInputTrace) × (rest : List RuntimeInputTrace) × (trace_input https_url_error
            inputs r
          ≡ ok first)
        × (trace_inputs https_url_error inputs rs ≡ ok rest)
        × (first ∷ rest ≡ ts)
  unfolding trace_inputs
  traced_cons r rs ts h =
      let (first, one, others) =
        >>=-eq-ok (trace_input https_url_error inputs r)
          (λ first. trace_inputs https_url_error inputs rs >>= λ rest. ok (first ∷ rest)) h in
      let (rest, all_traced, built) =
        >>=-eq-ok (trace_inputs https_url_error inputs rs) (λ rest. ok (first ∷ rest)) others in
      (first, rest, one, all_traced, cc)

  -- each trace is that of a requirement
  traced_from :
      (rs : List RuntimeInputRequirement) (ts : List RuntimeInputTrace) (m : ℕ)
      (t : RuntimeInputTrace)
      → trace_inputs https_url_error inputs rs ≡ ok ts
      → get_elem? ts m ≡ some t
      → (r : RuntimeInputRequirement) × (get_elem? rs m ≡ some r)
        × (trace_input https_url_error inputs r ≡ ok t)
  traced_from [] ts m t h at = let e : [] ≡ ts = traced_nil ts h in absurd (cc)
  traced_from (r ∷ rs) ts zero t h at =
      let (first, rest, one, others, built) = traced_cons r rs ts h in
      let same : some first ≡ some t = subst (λ x. get_elem? x zero ≡ some t) (sym built) at in
      (r, refl, subst (λ x. trace_input https_url_error inputs r ≡ ok x) (cc) one)
  traced_from (r ∷ rs) ts (suc m) t h at =
      let (first, rest, one, others, built) = traced_cons r rs ts h in
      traced_from rs rest m t others (subst (λ x. get_elem? x (suc m) ≡ some t) (sym built) at)

  -- and each requirement has its trace
  traced_to :
      (rs : List RuntimeInputRequirement) (ts : List RuntimeInputTrace) (m : ℕ)
      (r : RuntimeInputRequirement)
      → trace_inputs https_url_error inputs rs ≡ ok ts
      → get_elem? rs m ≡ some r
      → (t : RuntimeInputTrace) × (trace_input https_url_error inputs r ≡ ok t)
  traced_to [] ts m r h at = absurd (cc)
  traced_to (s ∷ rs) ts zero r h at =
      let (first, rest, one, others, built) = traced_cons s rs ts h in (first, cc)
  traced_to (s ∷ rs) ts (suc m) r h at =
      let (first, rest, one, others, built) = traced_cons s rs ts h in
      traced_to rs rest m r others at

  -- what a snapshot that is given went through
  snapshot_traced :
      (cases : Dict CatalogueTestCase) (ids : List String) (ts : List RuntimeInputTrace)
      → runtime_input_snapshot https_url_error inputs cases ids ≡ ok ts
      → (d : Dict RuntimeInputRequirement) × (merge_cases cases [] ids ≡ ok d)
        × (trace_inputs https_url_error inputs (values d) ≡ ok ts)
        × IsIndexed d
  unfolding runtime_input_snapshot
  snapshot_traced cases ids ts h =
      let (rs, combined, checked) =
        >>=-eq-ok (combined_runtime_requirements cases ids)
          (λ rs. reject_unsupported_headers rs inputs >> trace_inputs https_url_error inputs rs)
          h in
      let (d, merge, same) =
        >>=-eq-ok (merge_cases cases [] ids) (λ d. ok (values d))
          (sym (combined_runtime_requirements-merge_cases cases ids) ∙ combined) in
      let (_, traced) =
        >>-eq-ok (reject_unsupported_headers rs inputs) (trace_inputs https_url_error inputs rs)
          checked in
      (
        d,
        merge,
        subst (λ x. trace_inputs https_url_error inputs x ≡ ok ts) (cc) traced,
        merge_cases-IsIndexed cases ids [] d merge no_entries-IsIndexed,
      )

  -- the traces of a requirement
  plan_hides :
      (r : RuntimeInputRequirement) (found : Option Json) (t : RuntimeInputTrace)
      → trace_plan https_url_error inputs r found ≡ ok t
      → (t.input_id ≡ r.input_id)
        × (t.sensitive ≡ r.sensitive)
        × (t.value ≡ (if r.sensitive then none else found))
  plan_hides r none t h = ground arith
  plan_hides r (some value) t h =
      let (_, built) = >>-eq-ok (validate_runtime_input_value https_url_error r value) _ h in
      ground arith

  plan_given :
      (r : RuntimeInputRequirement) (found : Option Json) (t : RuntimeInputTrace)
      → trace_plan https_url_error inputs r found ≡ ok t
      → r.required ≡ true
      → (value : Json) × (found ≡ some value)
        × (validate_runtime_input_value https_url_error r value ≡ ok tt)
  plan_given r none t h required = absurd (ground arith)
  plan_given r (some value) t h required =
      (value, refl, (>>-eq-ok (validate_runtime_input_value https_url_error r value) _ h).0)

  elsewhere_hides :
      (r : RuntimeInputRequirement) (found : Option Json) (t : RuntimeInputTrace)
      → trace_elsewhere r found ≡ ok t
      → (t.input_id ≡ r.input_id) × (t.sensitive ≡ r.sensitive) × (t.value ≡ none)
  elsewhere_hides r none t h = ground arith
  elsewhere_hides r (some value) t h = absurd (cc)

  trace_hides :
      (r : RuntimeInputRequirement) (t : RuntimeInputTrace)
      → trace_input https_url_error inputs r ≡ ok t
      → r.sensitive ≡ true
      → (t.input_id ≡ r.input_id) × (t.sensitive ≡ true) × (t.value ≡ none)
  unfolding trace_input
  trace_hides r t h hidden = ground (
    arith,
    plan_hides r (given inputs r.input_id) t,
    elsewhere_hides r (given inputs r.input_id) t,
  )

  trace_named :
      (r : RuntimeInputRequirement) (t : RuntimeInputTrace)
      → trace_input https_url_error inputs r ≡ ok t
      → t.input_id ≡ r.input_id
  unfolding trace_input
  trace_named r t h = ground (
    arith,
    plan_hides r (given inputs r.input_id) t,
    elsewhere_hides r (given inputs r.input_id) t,
  )

  trace_given :
      (r : RuntimeInputRequirement) (t : RuntimeInputTrace)
      → trace_input https_url_error inputs r ≡ ok t
      → r.source ≡ "plan"
      → r.required ≡ true
      → (value : Json) × (given inputs r.input_id ≡ some value)
        × (validate_runtime_input_value https_url_error r value ≡ ok tt)
  unfolding trace_input
  trace_given r t h source required =
      plan_given r (given inputs r.input_id) t (ground (arith, eq_iff r.source "plan")) required

not_null-some :
    (found : Option Json) (value : Json)
    → not_null found ≡ some value
    → (found ≡ some value) × (value ≢ null)
not_null-some none value h = absurd (cc)
not_null-some (some null) value h = absurd (cc)
not_null-some (some (bool b)) value h = (h, λ e. cc)
not_null-some (some (num n)) value h = (h, λ e. cc)
not_null-some (some (str s)) value h = (h, λ e. cc)
not_null-some (some (arr items)) value h = (h, λ e. cc)
not_null-some (some (obj fields)) value h = (h, λ e. cc)

-- a value is checked against the type and the name of a requirement
validate-Covers :
    (https_url_error : String → Option String) (e r : RuntimeInputRequirement) (value : Json)
    → Covers e r
    → validate_runtime_input_value https_url_error e value ≡ ok tt
    → validate_runtime_input_value https_url_error r value ≡ ok tt
unfolding validate_runtime_input_value
validate-Covers https_url_error e r value c h = rw (← c.same_id, ← c.same_type) h

module _ (https_url_error : String → Option String) (inputs : Dict Json)
    (cases : Dict CatalogueTestCase) (ids : List String) (ts : List RuntimeInputTrace) (i : String)
    (c : CatalogueTestCase) (n : ℕ) (r : RuntimeInputRequirement)
    (taken : runtime_input_snapshot https_url_error inputs cases ids ≡ ok ts)
    (compiled : elem i ids ≡ true) (stands : get cases i ≡ some c)
    (requires : get_elem? c.runtime_input_requirements n ≡ some r) where
  -- In a snapshot that is taken, if a compiled case says of an input that it is sensitive, then no trace
  -- of that input shows a value, and each says that it is sensitive, whatever other cases say of it.
  pub runtime_input_snapshot_hides :
      (m : ℕ) (t : RuntimeInputTrace)
      → r.sensitive ≡ true
      → get_elem? ts m ≡ some t
      → t.input_id ≡ r.input_id
      → (t.sensitive ≡ true) × (t.value ≡ none)
  runtime_input_snapshot_hides m t hidden at named =
      let (d, merge, traced, v) = snapshot_traced https_url_error inputs cases ids ts taken in
      let (e, stood, one) = traced_from https_url_error inputs (values d) ts m t traced at in
      let (f, found, covers) =
        merge_cases-Covered cases ids [] d i c n r merge compiled stands requires
          no_entries-IsIndexed in
      let same_id : e.input_id ≡ r.input_id =
        sym (trace_named https_url_error inputs e t one) ∙ named in
      let at_id : get d r.input_id ≡ some e =
        subst (λ x. get d x ≡ some e) same_id
          (values_keyed (λ (x : RuntimeInputRequirement). x.input_id) d m e v.keyed v.distinct
            stood) in
      let same : f ≡ e = cc in
      let covered : Covers e r = subst (λ x. Covers x r) same covers in
      let (_, shown, gone) =
        trace_hides https_url_error inputs e t one (ground (arith, covered.hides)) in
      (shown, gone)

  -- In a snapshot that is taken, the plan gives a value to each input that a compiled case requires of
  -- the plan: one that is not null and passes the check of the case's own requirement.
  pub runtime_input_snapshot_gives :
      r.required ≡ true
      → r.source ≡ "plan"
      → (value : Json) × (get inputs r.input_id ≡ some value)
        × (value ≢ null)
        × (validate_runtime_input_value https_url_error r value ≡ ok tt)
  unfolding given
  runtime_input_snapshot_gives required source =
      let (d, merge, traced, v) = snapshot_traced https_url_error inputs cases ids ts taken in
      let (e, found, covers) =
        merge_cases-Covered cases ids [] d i c n r merge compiled stands requires
          no_entries-IsIndexed in
      let (m, stood) = values_place d r.input_id e found in
      let (t, one) = traced_to https_url_error inputs (values d) ts m e traced stood in
      let (value, here, checked) =
        trace_given https_url_error inputs e t one (covers.same_source ∙ source)
          (ground (arith, covers.requires)) in
      let (there, real) = not_null-some (get inputs e.input_id) value here in
      (
        value,
        subst (λ x. get inputs x ≡ some value) covers.same_id there,
        real,
        validate-Covers https_url_error e r value covers checked,
      )
