-- ===== src/Catalogue/Requirements/Combined.antt =====
-- The combination of requirements keeps a dictionary, positions and a list in step: it is the merge
-- in one dictionary.
use conformance_suite_v.Base.{
  ℕ, suc, ◌+◌, String, ◌≡◌, refl, not, Option, none, some, List, [], ◌∷◌, ◌++◌, Result, ok, err,
  ◌>>=◌, arith, str_eq, if◌then◌else◌, elem, length, Bool-cases, inl, inr,
}
use conformance_suite_v.Base.Split.{get_elem?}
use conformance_suite_v.Base.Dict.{Dict, get, put, values}
use conformance_suite_v.Catalogue.{
  RuntimeInputRequirement, CatalogueTestCase, CatalogueError, unsupported_input_type,
  conflicting_input_types, conflicting_input_sources,
}
use conformance_suite_v.Catalogue.Requirements.{
  Requirements, supported_input_types, set, set_at, merged, join_requirement, combine_requirement,
  combine_requirements, requirements_of, combine_cases, combined_runtime_requirements,
}

-- Each key's place in the dictionary, counted from `n`.
unfoldable pub places {ℓ} : {V : Type ℓ} → ℕ → Dict V → Dict ℕ
places n [] = []
places n ((k, v) ∷ d) = (k, n) ∷ places (suc n) d

module _ {ℓ} {V : Type ℓ} where
  pub get-places-none :
      (n : ℕ) (d : Dict V) (k : String) → get d k ≡ none → get (places n d) k ≡ none
  unfolding get places
  get-places-none n [] k h = refl
  get-places-none n ((j, v) ∷ d) k h = ground (arith, get-places-none (suc n) d k)

  pub places-put_new :
      (n : ℕ) (d : Dict V) (k : String) (v : V)
      → get d k ≡ none
      → places n (put d k v) ≡ put (places n d) k (n + length (values d))
  unfolding get put places values
  places-put_new n [] k v h = ground arith
  places-put_new n ((j, w) ∷ d) k v h = ground (arith, places-put_new (suc n) d k v)

  pub places-put_old :
      (n : ℕ) (d : Dict V) (k : String) (v w : V)
      → get d k ≡ some w
      → places n (put d k v) ≡ places n d
  unfolding get put places
  places-put_old n [] k v w h = absurd (cc)
  places-put_old n ((j, u) ∷ d) k v w h = ground (arith, places-put_old (suc n) d k v w)

  pub values-put_new :
      (d : Dict V) (k : String) (v : V) → get d k ≡ none → values (put d k v) ≡ values d ++ v ∷ []
  unfolding get put values
  values-put_new [] k v h = refl
  values-put_new ((j, w) ∷ d) k v h = ground (arith, values-put_new d k v)

  -- an assignment to a key that is there writes at the key's place
  pub values-put_old :
      (n : ℕ) (d : Dict V) (k : String) (v w : V)
      → get d k ≡ some w
      → (m : ℕ) × (get (places n d) k ≡ some (n + m))
        × (values (put d k v) ≡ set (values d) m v)
        × (get_elem? (values d) m ≡ some w)
  unfolding get put places values set
  values-put_old n [] k v w h = absurd (cc)
  values-put_old n ((j, u) ∷ d) k v w h = elim (Bool-cases (str_eq j k)) [
    | inl e ↦ (0, ground arith, ground arith, ground arith)
    | inr e ↦
        let rest = values-put_old (suc n) d k v w (ground arith) in
        (suc rest.0, ground arith, ground arith, rest.3)
  ]

-- The merge of a requirement in a dictionary.
abbrev pub merge_with :
    Dict RuntimeInputRequirement
    → RuntimeInputRequirement
    → Option RuntimeInputRequirement
    → Result CatalogueError (Dict RuntimeInputRequirement)
merge_with d r none = ok (put d r.input_id r)
merge_with d r (some existing) =
    if not (str_eq existing.input_type r.input_type)
    then err (conflicting_input_types r.input_id)
    else if not (str_eq existing.source r.source)
    then err (conflicting_input_sources r.input_id)
    else ok (put d r.input_id (merged existing r))

unfoldable pub merge_requirement :
    Dict RuntimeInputRequirement
    → RuntimeInputRequirement
    → Result CatalogueError (Dict RuntimeInputRequirement)
merge_requirement d r =
    if not (elem r.input_type supported_input_types)
    then err (unsupported_input_type r.input_id r.input_type)
    else merge_with d r (get d r.input_id)

unfoldable pub merge_requirements :
    Dict RuntimeInputRequirement
    → List RuntimeInputRequirement
    → Result CatalogueError (Dict RuntimeInputRequirement)
merge_requirements d [] = ok d
merge_requirements d (r ∷ rs) = do next ← merge_requirement d r; merge_requirements next rs

unfoldable pub merge_cases :
    Dict CatalogueTestCase
    → Dict RuntimeInputRequirement
    → List String
    → Result CatalogueError (Dict RuntimeInputRequirement)
merge_cases cases d [] = ok d
merge_cases cases d (i ∷ ids) = do
  rs ← requirements_of i (get cases i)
  next ← merge_requirements d rs
  merge_cases cases next ids

-- The three variables, when they hold a dictionary.
abbrev state_of : Dict RuntimeInputRequirement → Requirements
state_of d = record { by_id = d; positions = places 0 d; ordered = values d }

abbrev stated :
    Result CatalogueError (Dict RuntimeInputRequirement) → Result CatalogueError Requirements
stated m = m >>= λ d. ok (state_of d)

set_at-state_of :
    (d : Dict RuntimeInputRequirement) (k : String) (e v : RuntimeInputRequirement)
    → get d k ≡ some e
    → ◌≡◌ {A = Requirements}
        (record {
          by_id = put d k v;
          positions = places 0 d;
          ordered = set_at (values d) (get (places 0 d) k) v;
        })
        (state_of (put d k v))
unfolding set_at
set_at-state_of d k e v h =
    let (m, place, written, _) = values-put_old 0 d k v e h in
    rw (place, places-put_old 0 d k v e h, written) (ground arith)

join-state_of :
    (d : Dict RuntimeInputRequirement) (r : RuntimeInputRequirement)
    (found : Option RuntimeInputRequirement)
    → get d r.input_id ≡ found
    → join_requirement (state_of d) r found ≡ stated (merge_with d r found)
unfolding join_requirement
join-state_of d r none h =
    rw (places-put_new 0 d r.input_id r h, values-put_new d r.input_id r h) (ground arith)
join-state_of d r (some e) h = ground (arith, set_at-state_of d r.input_id e (merged e r) h)

combine-state_of :
    (d : Dict RuntimeInputRequirement) (r : RuntimeInputRequirement)
    → combine_requirement (state_of d) r ≡ stated (merge_requirement d r)
unfolding combine_requirement merge_requirement
combine-state_of d r = ground (arith, join-state_of d r (get d r.input_id) refl)

stated_bind :
    (m : Result CatalogueError (Dict RuntimeInputRequirement))
    (f : Dict RuntimeInputRequirement → Result CatalogueError (Dict RuntimeInputRequirement))
    (g : Requirements → Result CatalogueError Requirements)
    → ((d : Dict RuntimeInputRequirement) → g (state_of d) ≡ stated (f d))
    → (stated m >>= g) ≡ stated (m >>= f)
stated_bind (ok d) f g same = same d
stated_bind (err e) f g same = refl

combine_all-state_of :
    (d : Dict RuntimeInputRequirement) (rs : List RuntimeInputRequirement)
    → combine_requirements (state_of d) rs ≡ stated (merge_requirements d rs)
unfolding combine_requirements merge_requirements
combine_all-state_of d [] = refl
combine_all-state_of d (r ∷ rs) = rw (combine-state_of d r) (
    stated_bind (merge_requirement d r) (λ next. merge_requirements next rs)
      (λ next. combine_requirements next rs) (λ next. combine_all-state_of next rs))

looked_up :
    (f : Dict RuntimeInputRequirement → Result CatalogueError (Dict RuntimeInputRequirement))
    (g : Requirements → Result CatalogueError Requirements) (d : Dict RuntimeInputRequirement)
    (found : Result CatalogueError (List RuntimeInputRequirement))
    → ((next : Dict RuntimeInputRequirement) → g (state_of next) ≡ stated (f next))
    → (found >>= λ rs. combine_requirements (state_of d) rs >>= g)
      ≡ stated (found >>= λ rs. merge_requirements d rs >>= f)
looked_up f g d (err e) same = refl
looked_up f g d (ok rs) same =
    rw (combine_all-state_of d rs) (stated_bind (merge_requirements d rs) f g same)

combine_cases-state_of :
    (cases : Dict CatalogueTestCase) (d : Dict RuntimeInputRequirement) (ids : List String)
    → combine_cases cases (state_of d) ids ≡ stated (merge_cases cases d ids)
unfolding combine_cases merge_cases
combine_cases-state_of cases d [] = refl
combine_cases-state_of cases d (i ∷ ids) =
    looked_up (λ next. merge_cases cases next ids) (λ next. combine_cases cases next ids) d
      (requirements_of i (get cases i)) (λ next. combine_cases-state_of cases next ids)

abbrev pub values_of :
    Result CatalogueError (Dict RuntimeInputRequirement)
    → Result CatalogueError (List RuntimeInputRequirement)
values_of m = m >>= λ d. ok (values d)

ordered_stated :
    (m : Result CatalogueError (Dict RuntimeInputRequirement))
    → (stated m >>= λ s. ok s.ordered) ≡ values_of m
ordered_stated (ok d) = refl
ordered_stated (err e) = refl

-- The requirements that the compiled cases are combined to, and the exception in place of them, are
-- those of the merge of each requirement in one dictionary, in the order of first use.
pub combined_runtime_requirements-merge_cases :
    (cases : Dict CatalogueTestCase) (ids : List String)
    → combined_runtime_requirements cases ids ≡ values_of (merge_cases cases [] ids)
unfolding combined_runtime_requirements places values
combined_runtime_requirements-merge_cases cases ids =
    rw (combine_cases-state_of cases [] ids) (ordered_stated (merge_cases cases [] ids))
