-- ===== src/Gate/Acceptance.antt =====
-- The gate accepts exactly the evidence.
use conformance_suite_v.Base.{
  ℕ, zero, suc, ◌≡◌, refl, ◌∙◌, String, Bool, true, false, ◌&&◌, Option, none, some, List, [], ◌∷◌,
  Result, ok, err, ◌>>=◌, ◌>>◌, is_ok, arith, eq_iff, str_eq, ◌==◌, length, count_if, elem, all,
}
use conformance_suite_v.Base.Json.{
  is_text, Json, null, bool, num, str, arr, obj, integer, ratio, infinity, nan, field_of, entries,
}
use conformance_suite_v.Gate.{
  Location, root, part, GateError, require, object_at, array_at, statuses_at, count_at,
  catalogue_case_count, is_nonempty, check_steps, Validated, not_passed, failed_reported,
  failed_steps, count_mismatch, validate_structured_conformance_result,
}
use conformance_suite_v.Gate.Evidence.{is_good, is_zero, with_fields, good_steps, is_evidence}
use conformance_suite_v.Gate.Parts.{
  passes, none_failed, passes-statuses_at, passes-require, passes-unit,
}
use conformance_suite_v.Gate.Groups.{passes-catalogue}

passes-count_at {ℓ} :
    {B : Type ℓ} (l : Location) (o : Option Json) (e : GateError) (g : ℕ → Result GateError B)
    (p : B → Bool)
    → passes (count_at l o >>= λ n. require (n == 0) e >> g n) p ≡ (is_zero o && passes (g 0) p)
passes-count_at l (some (num (integer false zero))) e g p = refl
passes-count_at l (some (num (integer false (suc n)))) e g p = ground arith
passes-count_at l (some (num (integer true zero))) e g p = refl
passes-count_at l (some (num (integer true (suc n)))) e g p = ground arith
passes-count_at l (some (num (ratio s a b))) e g p = refl
passes-count_at l (some (num (infinity s))) e g p = refl
passes-count_at l (some (num nan)) e g p = refl
passes-count_at l none e g p = refl
passes-count_at l (some null) e g p = refl
passes-count_at l (some (bool b)) e g p = refl
passes-count_at l (some (str s)) e g p = refl
passes-count_at l (some (arr a)) e g p = refl
passes-count_at l (some (obj f)) e g p = refl

count-none_failed :
    (ss : List String) → (count_if (λ s. str_eq s "failed") ss == 0) ≡ none_failed ss
unfolding count_if elem
count-none_failed [] = refl
count-none_failed (s ∷ ss) =
    ground (arith, eq_iff s "failed", eq_iff "failed" s, count-none_failed ss)

passes-check_steps :
    (steps : List Json)
    → passes (check_steps 0 steps) (λ _. true) ≡ (is_nonempty steps && all is_good steps)
passes-check_steps [] = refl
passes-check_steps (v ∷ vs) =
    go (statuses_at (part root "steps") 0 (v ∷ vs))
      (passes-statuses_at (part root "steps") 0 (v ∷ vs))
  where
    go :
        (r : Result GateError (List String))
        → passes r none_failed ≡ all is_good (v ∷ vs)
        → passes
            (r >>= λ ss.
              require
                (count_if (λ s. str_eq s "failed") ss == 0)
                (failed_steps (count_if (λ s. str_eq s "failed") ss))
              >> require (count_if (λ s. str_eq s "failed") ss == 0) count_mismatch)
            (λ _. true)
          ≡ all is_good (v ∷ vs)
    go (ok ss) h = ground (arith, count-none_failed ss)
    go (err e) h = h

passes-done :
    (steps : List Json) (r : Result GateError ℕ) (b : Bool)
    → (b
        && passes
            (r >>= λ c. ok (record { step_count = length steps; case_count = c }))
            (λ (_ : Validated). true))
      ≡ (b && passes r (λ _. true))
passes-done steps (ok c) b = refl
passes-done steps (err e) b = refl

passes-steps :
    (l : Location) (o : Option Json) (r : Result GateError ℕ)
    → passes
        (array_at l o >>= λ steps.
          check_steps 0 steps
          >> (r >>= λ c. ok (record { step_count = length steps; case_count = c })))
        (λ (_ : Validated). true)
      ≡ (good_steps o && passes r (λ _. true))
passes-steps l (some (arr items)) r =
    passes-unit (check_steps 0 (entries items)) _ (λ _. true)
    ∙ rw (passes-check_steps (entries items))
        (passes-done (entries items) r (is_nonempty (entries items) && all is_good (entries items)))
passes-steps l none r = refl
passes-steps l (some null) r = refl
passes-steps l (some (bool b)) r = refl
passes-steps l (some (num n)) r = refl
passes-steps l (some (str s)) r = refl
passes-steps l (some (obj g)) r = refl

passes-is_ok {ℓ} : {A : Type ℓ} (r : Result GateError A) → is_ok r ≡ passes r (λ _. true)
passes-is_ok (ok a) = refl
passes-is_ok (err e) = refl

passes-summary :
    (l m : Location) (o : Option Json) (e : GateError) (g : ℕ → Result GateError Validated)
    → passes
        (object_at l o >>= λ summary.
          count_at m (field_of summary "failed") >>= λ n. require (n == 0) e >> g n)
        (λ _. true)
      ≡ (with_fields (λ summary. is_zero (field_of summary "failed")) o && passes (g 0) (λ _. true))
passes-summary l m (some (obj f)) e g = passes-count_at m (field_of f "failed") e g (λ _. true)
passes-summary l m none e g = refl
passes-summary l m (some null) e g = refl
passes-summary l m (some (bool b)) e g = refl
passes-summary l m (some (num n)) e g = refl
passes-summary l m (some (str s)) e g = refl
passes-summary l m (some (arr a)) e g = refl

-- The gate accepts a result exactly if it is evidence: its status is passed; its summary reports
-- no failure; it has a step; each step, trace group, case and step of a case has a known status that
-- is not failed; and a catalogue, if there is one, has an `api` that is no array or object, and
-- for DCR has trace groups with a case.
pub validate_iff_evidence :
    (raw : Json) → is_ok (validate_structured_conformance_result raw) ≡ is_evidence raw
unfolding validate_structured_conformance_result
validate_iff_evidence (obj f) =
    let cases = catalogue_case_count (field_of f "catalogue") in
    passes-is_ok (validate_structured_conformance_result (obj f))
    ∙ passes-require (is_text "passed" (field_of f "status")) not_passed _ (λ _. true)
    ∙ rw
        (
          passes-summary (part root "summary") (part (part root "summary") "failed")
              (field_of f "summary") failed_reported
              (λ n. array_at (part root "steps") (field_of f "steps") >>= λ steps.
                check_steps n steps
                >> (cases >>= λ c. ok (record { step_count = length steps; case_count = c }))),
          passes-steps (part root "steps") (field_of f "steps") cases,
          passes-catalogue (field_of f "catalogue"),
        )
        refl
validate_iff_evidence null = refl
validate_iff_evidence (bool b) = refl
validate_iff_evidence (num n) = refl
validate_iff_evidence (str s) = refl
validate_iff_evidence (arr a) = refl
