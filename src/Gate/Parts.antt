-- ===== src/Gate/Parts.antt =====
-- Each part of the gate passes exactly what its description does.
use conformance_suite_v.Base.{
  ℕ, suc, ◌≡◌, refl, ◌∙◌, String, Bool, true, false, not, ◌&&◌, Option, none, some, List, [], ◌∷◌,
  Result, ok, err, ◌>>=◌, ◌>>◌, arith, eq_iff, str_eq, elem, all,
}
use conformance_suite_v.Base.Json.{Json, null, bool, num, str, arr, obj, field_of, entries}
use conformance_suite_v.Gate.{
  Location, part, index, GateError, require, array_at, entry_status, known_status, status_at,
  statuses_at, reject_failed_trace_cases,
}
use conformance_suite_v.Gate.Evidence.{good_status, is_good, all_entries, is_good_case}

-- whether a call succeeds with a value that passes a test
abbrev pub passes {ℓ} : {A : Type ℓ} → Result GateError A → (A → Bool) → Bool
passes (ok a) p = p a
passes (err _) p = false

abbrev pub not_failed : String → Bool
not_failed s = not (str_eq s "failed")

abbrev pub none_failed : List String → Bool
none_failed ss = not (elem "failed" ss)

pub failed_alone :
    (s : String)
    → str_eq s "failed" ≡ true
    → (str_eq s "passed" ≡ false) × (str_eq s "warn" ≡ false) × (str_eq s "skipped" ≡ false)
failed_alone s h = rw ((eq_iff s "failed").0 h) (refl, refl, refl)

pub passes-known_status :
    (l : Location) (o : Option Json) → passes (known_status l o) not_failed ≡ good_status o
unfolding elem
passes-known_status l none = refl
passes-known_status l (some (str s)) = ground (arith, failed_alone s)
passes-known_status l (some null) = refl
passes-known_status l (some (bool b)) = refl
passes-known_status l (some (num n)) = refl
passes-known_status l (some (arr a)) = refl
passes-known_status l (some (obj f)) = refl

pub passes-entry_status :
    (l : Location) (v : Json) → passes (entry_status l v) not_failed ≡ is_good v
passes-entry_status l (obj f) = passes-known_status l (field_of f "status")
passes-entry_status l null = refl
passes-entry_status l (bool b) = refl
passes-entry_status l (num n) = refl
passes-entry_status l (str s) = refl
passes-entry_status l (arr a) = refl

pub passes-cons :
    (r : Result GateError String) (rs : Result GateError (List String))
    → passes (r >>= λ s. rs >>= λ ss. ok (s ∷ ss)) none_failed
      ≡ (passes r not_failed && passes rs none_failed)
unfolding elem
passes-cons (ok s) (ok ss) = ground (arith, eq_iff s "failed", eq_iff "failed" s)
passes-cons (ok s) (err e) = ground arith
passes-cons (err e) rs = refl

pub passes-statuses_at :
    (l : Location) (i : ℕ) (vs : List Json)
    → passes (statuses_at l i vs) none_failed ≡ all is_good vs
unfolding statuses_at all elem
passes-statuses_at l i [] = refl
passes-statuses_at l i (v ∷ vs) =
    rw
      (
        passes-cons (entry_status (index l i) v) (statuses_at l (suc i) vs),
        passes-entry_status (index l i) v,
        passes-statuses_at l (suc i) vs,
      )
      refl

pub passes-require {ℓ} :
    {B : Type ℓ} (b : Bool) (e : GateError) (next : Result GateError B) (p : B → Bool)
    → passes (require b e >> next) p ≡ (b && passes next p)
passes-require true e next p = refl
passes-require false e next p = refl

pub passes-status-bind {ℓ} :
    {B : Type ℓ} (r : Result GateError String) (e : GateError) (next : Result GateError B)
    (p : B → Bool)
    → passes (r >>= λ s. require (not (str_eq s "failed")) e >> next) p
      ≡ (passes r not_failed && passes next p)
passes-status-bind (ok s) e next p = passes-require (not (str_eq s "failed")) e next p
passes-status-bind (err x) e next p = refl

pub passes-statuses-bind {ℓ} :
    {B : Type ℓ} (r : Result GateError (List String)) (e : GateError) (next : Result GateError B)
    (p : B → Bool)
    → passes (r >>= λ ss. require (not (elem "failed" ss)) e >> next) p
      ≡ (passes r none_failed && passes next p)
passes-statuses-bind (ok ss) e next p = passes-require (not (elem "failed" ss)) e next p
passes-statuses-bind (err x) e next p = refl

-- an array whose entries pass a test, and what comes after it
pub passes-array_at {ℓ} :
    {B : Type ℓ} (l : Location) (o : Option Json) (f : List Json → Result GateError B)
    (t : Json → Bool) (k : Bool) (p : B → Bool)
    → ((vs : List Json) → passes (f vs) p ≡ (all t vs && k))
    → passes (array_at l o >>= f) p ≡ (all_entries t o && k)
passes-array_at l (some (arr items)) f t k p h = h (entries items)
passes-array_at l none f t k p h = refl
passes-array_at l (some null) f t k p h = refl
passes-array_at l (some (bool b)) f t k p h = refl
passes-array_at l (some (num n)) f t k p h = refl
passes-array_at l (some (str s)) f t k p h = refl
passes-array_at l (some (obj g)) f t k p h = refl

pub passes-unit {ℓ} :
    {B : Type ℓ} (r : Result GateError (Unit {0})) (next : Result GateError B) (p : B → Bool)
    → passes (r >> next) p ≡ (passes r (λ _. true) && passes next p)
passes-unit (ok tt) next p = refl
passes-unit (err x) next p = refl

pub and_assoc : (a b c : Bool) → (a && (b && c)) ≡ (a && b && c)
and_assoc a b c = ground arith

pub passes-reject_failed_trace_cases :
    (l : Location) (i : ℕ) (vs : List Json)
    → passes (reject_failed_trace_cases l i vs) (λ _. true) ≡ all is_good_case vs
unfolding reject_failed_trace_cases all
passes-reject_failed_trace_cases l i [] = refl
passes-reject_failed_trace_cases l i (obj f ∷ vs) =
    let rest = reject_failed_trace_cases l (suc i) vs in
    let steps_at = part (index l i) "steps" in
    passes-status-bind (status_at (index l i) f) _ _ (λ _. true)
    ∙ rw
        (
          passes-known_status (index l i) (field_of f "status"),
          passes-array_at steps_at (field_of f "steps") _ is_good (all is_good_case vs) (λ _. true)
              (λ ss.
                passes-statuses-bind (statuses_at steps_at 0 ss) _ rest (λ _. true)
                ∙ rw
                    (
                      passes-statuses_at steps_at 0 ss,
                      passes-reject_failed_trace_cases l (suc i) vs,
                    )
                    refl),
        )
        (and_assoc (good_status (field_of f "status")) (all_entries is_good (field_of f "steps"))
          (all is_good_case vs))
passes-reject_failed_trace_cases l i (null ∷ vs) = refl
passes-reject_failed_trace_cases l i (bool b ∷ vs) = refl
passes-reject_failed_trace_cases l i (num n ∷ vs) = refl
passes-reject_failed_trace_cases l i (str s ∷ vs) = refl
passes-reject_failed_trace_cases l i (arr a ∷ vs) = refl
