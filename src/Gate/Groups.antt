-- ===== src/Gate/Groups.antt =====
-- The catalogue part of the gate passes exactly what its description does.
use conformance_suite_v.Base.{
  ℕ, suc, ◌+◌, ◌≡◌, refl, ◌∙◌, Bool, true, false, not, ◌&&◌, Option, none, some, List, [], ◌∷◌,
  Result, ok, err, ◌>>=◌, ◌>>◌, arith, ◌==◌, length, all,
}
use conformance_suite_v.Base.Json.{Json, null, bool, num, str, arr, obj, field_of, entries}
use conformance_suite_v.Gate.{
  Location, part, index, GateError, require, array_at, status_at, reject_failed_trace_cases,
  count_cases, is_dcr, groups_case_count, catalogue_case_count, no_cases, trace_groups_location,
}
use conformance_suite_v.Gate.Evidence.{
  all_entries, is_good_case, is_good_group, entry_count, cases_total, good_groups, is_scalar,
  names_dcr, good_catalogue,
}
use conformance_suite_v.Gate.Parts.{
  passes, passes-known_status, passes-status-bind, passes-unit, passes-reject_failed_trace_cases,
}

pub passes-add :
    (c : ℕ) (r : Result GateError ℕ) (q : ℕ → Bool)
    → passes (r >>= λ n. ok (c + n)) q ≡ passes r (λ n. q (c + n))
passes-add c (ok n) q = refl
passes-add c (err e) q = refl

pub passes-cases :
    (l m : Location) (o : Option Json) (r : Result GateError ℕ) (q : ℕ → Bool)
    → passes
        (array_at l o >>= λ cases.
          reject_failed_trace_cases m 0 cases >> (r >>= λ n. ok (length cases + n)))
        q
      ≡ (all_entries is_good_case o && passes r (λ n. q (entry_count o + n)))
passes-cases l m (some (arr items)) r q =
    passes-unit (reject_failed_trace_cases m 0 (entries items)) _ q
    ∙ rw
        (
          passes-reject_failed_trace_cases m 0 (entries items),
          passes-add (length (entries items)) r q,
        )
        refl
passes-cases l m none r q = refl
passes-cases l m (some null) r q = refl
passes-cases l m (some (bool b)) r q = refl
passes-cases l m (some (num n)) r q = refl
passes-cases l m (some (str s)) r q = refl
passes-cases l m (some (obj g)) r q = refl

pub passes-count_cases :
    (l : Location) (i : ℕ) (vs : List Json) (q : ℕ → Bool)
    → passes (count_cases l i vs) q ≡ (all is_good_group vs && q (cases_total vs))
unfolding count_cases all cases_total
passes-count_cases l i [] q = refl
passes-count_cases l i (obj f ∷ vs) q =
    let at = part (index l i) "testCases" in
    let cases = field_of f "testCases" in
    passes-status-bind (status_at (index l i) f) _ _ q
    ∙ rw
        (
          passes-known_status (index l i) (field_of f "status"),
          passes-cases at at cases (count_cases l (suc i) vs) q,
          passes-count_cases l (suc i) vs (λ n. q (entry_count cases + n)),
        )
        (ground arith)
passes-count_cases l i (null ∷ vs) q = refl
passes-count_cases l i (bool b ∷ vs) q = refl
passes-count_cases l i (num n ∷ vs) q = refl
passes-count_cases l i (str s ∷ vs) q = refl
passes-count_cases l i (arr a ∷ vs) q = refl

pub passes-tested :
    (r : Result GateError ℕ) (t : ℕ → Bool) (e : GateError)
    → passes (r >>= λ c. require (t c) e >> ok c) (λ _. true) ≡ passes r t
passes-tested (ok c) t e = ground arith
passes-tested (err x) t e = refl

pub passes-groups :
    (dcr : Bool) (o : Option Json)
    → passes
        (groups_case_count dcr o >>= λ count.
          require (not (dcr && count == 0)) no_cases >> ok count)
        (λ _. true)
      ≡ good_groups dcr o
passes-groups true none = refl
passes-groups false none = refl
passes-groups true (some null) = refl
passes-groups false (some null) = refl
passes-groups dcr (some (arr items)) =
    passes-tested (count_cases trace_groups_location 0 (entries items))
      (λ count. not (dcr && count == 0)) no_cases
    ∙ passes-count_cases trace_groups_location 0 (entries items) (λ count. not (dcr && count == 0))
passes-groups dcr (some (bool b)) = refl
passes-groups dcr (some (num n)) = refl
passes-groups dcr (some (str s)) = refl
passes-groups dcr (some (obj g)) = refl

pub passes-is_dcr :
    (api groups : Option Json)
    → passes
        (is_dcr api >>= λ dcr. groups_case_count dcr groups >>= λ count.
          require (not (dcr && count == 0)) no_cases >> ok count)
        (λ _. true)
      ≡ (is_scalar api && good_groups (names_dcr api) groups)
passes-is_dcr none groups = passes-groups false groups
passes-is_dcr (some null) groups = passes-groups false groups
passes-is_dcr (some (bool b)) groups = passes-groups false groups
passes-is_dcr (some (num n)) groups = passes-groups false groups
passes-is_dcr (some (str s)) groups = passes-groups (names_dcr (some (str s))) groups
passes-is_dcr (some (arr a)) groups = refl
passes-is_dcr (some (obj f)) groups = refl

pub passes-catalogue :
    (o : Option Json) → passes (catalogue_case_count o) (λ _. true) ≡ good_catalogue o
passes-catalogue none = refl
passes-catalogue (some null) = refl
passes-catalogue (some (obj f)) = passes-is_dcr (field_of f "api") (field_of f "traceGroups")
passes-catalogue (some (bool b)) = refl
passes-catalogue (some (num n)) = refl
passes-catalogue (some (str s)) = refl
passes-catalogue (some (arr a)) = refl
