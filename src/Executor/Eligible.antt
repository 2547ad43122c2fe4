-- ===== src/Executor/Eligible.antt =====
-- What the results of a run say of its manifest (conformance/executor.py with conformance/results.py).
use mathlib.Core.Path.{subst}
use conformance_suite_v.Base.{
  ℕ, String, ◌≡◌, ◌⊎◌, refl, sym, ◌∙◌, Bool, true, false, not, ◌&&◌, ◌||◌, Option, some, List, [],
  ◌∷◌, ◌++◌, Result, ok, err, arith, eq_iff, str_eq, if◌then◌else◌, elem, filter, all, any, All,
  inl, inr,
}
use conformance_suite_v.Base.Dict.Distinct.{Distinct}
use conformance_suite_v.TestPlan.{
  V1Step, Manifest, TestPlanEntry, TestPlan, selected_step_ids, deselected_mandatory_step_ids,
  entry_ids,
}
use conformance_suite_v.Schedule.{build_execution_schedule}
use conformance_suite_v.Schedule.Groups.{runs_first}
use conformance_suite_v.Report.{
  StepResult, SmokeCheckResult, ApprovedReleasePolicy, is_success, build_smoke_check_result,
  eligibility_of,
}
use conformance_suite_v.Report.Certification.{eligible_iff}
use conformance_suite_v.Executor.{Performers, built, manifest_steps, run_manifest_v1}
use conformance_suite_v.Executor.Workers.{ids, IsFaithful, AnswersAll}
use conformance_suite_v.Executor.Turns.{HaveTurns, CollectAnswers}
use conformance_suite_v.Executor.Order.{runs_later}
use conformance_suite_v.Executor.Answers.{expected, manifest_steps-CollectAnswers}

module _ {C S : Type 0} (R : Type 0) (p : Performers C S) (faithful : IsFaithful R p) (m : Manifest)
    (plan : TestPlan) (v1 : m.schema_version ≡ "v1") (unique : Distinct (ids m.steps)) (ns : List ℕ)
    (enough : HaveTurns ns (build_execution_schedule m plan).execution_groups) (c : C)
    (started now : ℕ) (policy : Option ApprovedReleasePolicy) (s : S) where
  -- Let `R` follow from each exception of a step. If the identifiers of a v1 manifest are different and
  -- each group's thread gets a turn for each of its steps, then, in whatever order the threads get
  -- their turns, the run either ends with `R` or returns a report with exactly one result for each
  -- selected step, first the setup steps and then the others, both in the manifest's order; each bears
  -- the identifier of its step and is mandatory exactly if the step is.
  pub run_manifest_v1-AnswersAll :
      R
      ⊎ ((r : SmokeCheckResult) × ((run_manifest_v1 p ns c started now policy m plan s).0 ≡ ok r)
          × AnswersAll (expected m plan) r.steps)
  unfolding run_manifest_v1 build_smoke_check_result
  run_manifest_v1-AnswersAll =
      go (manifest_steps p ns c m plan s)
        (manifest_steps-CollectAnswers R p faithful m plan v1 unique ns c s enough)
    where
      go :
          (o : Result String (List StepResult) × S)
          → CollectAnswers R p faithful (expected m plan) o.0
          → R
            ⊎ ((r : SmokeCheckResult) × ((built started now plan policy m o).0 ≡ ok r)
                × AnswersAll (expected m plan) r.steps)
      go (err error, s') h = inl h
      go (ok rs, s') h = inr (
        build_smoke_check_result rs started now (some plan) policy m.certification_coverage [],
        refl,
        h,
      )

-- the entries of a plan are those of the steps of its manifest
abbrev pub IsPlanOf : List V1Step → List TestPlanEntry → Type 0
IsPlanOf [] [] = Unit
IsPlanOf [] (e ∷ es) = ⊥
IsPlanOf (s ∷ steps) [] = ⊥
IsPlanOf (s ∷ steps) (e ∷ es) =
    ((e.step_id ≡ s.id) × (e.mandatory ≡ s.mandatory)) × IsPlanOf steps es

-- a mandatory result under this name is a success
abbrev pub succeeded : String → List StepResult → Bool
succeeded i rs = any (λ (r : StepResult). str_eq r.name i && r.mandatory && is_success r.status) rs

-- a list of identifiers that grows loses no mandatory step
abbrev AreSelected : List String → List V1Step → Type 0
AreSelected selected steps = All (λ s. not s.mandatory || elem s.id selected ≡ true) steps

AreSelected-grow :
    (i : String) (b : Bool) (selected : List String) (steps : List V1Step)
    → AreSelected selected steps
    → AreSelected (if b then i ∷ selected else selected) steps
unfolding elem
AreSelected-grow i b selected [] h = tt
AreSelected-grow i b selected (s ∷ steps) (e, h) =
    (ground arith, AreSelected-grow i b selected steps h)

abbrev selected_ids : List TestPlanEntry → List String
selected_ids es = entry_ids (filter (λ (e : TestPlanEntry). e.selected) es)

selected_ids-cons :
    (e : TestPlanEntry) (es : List TestPlanEntry)
    → selected_ids (e ∷ es) ≡ (if e.selected then e.step_id ∷ selected_ids es else selected_ids es)
unfolding filter
selected_ids-cons e es = ground arith

-- if no mandatory step is deselected, then each is selected
selected_of_plan :
    (steps : List V1Step) (es : List TestPlanEntry)
    → IsPlanOf steps es
    → entry_ids (filter (λ (e : TestPlanEntry). e.mandatory && not e.selected) es) ≡ []
    → AreSelected (selected_ids es) steps
unfolding filter elem
selected_of_plan [] [] h e = tt
selected_of_plan [] (x ∷ es) h e = absurd h
selected_of_plan (s ∷ steps) [] h e = absurd h
selected_of_plan (s ∷ steps) (x ∷ es) ((i, k), h) e =
    let rest = selected_of_plan steps es h (ground arith) in
    subst (λ l. AreSelected l (s ∷ steps)) (sym (selected_ids-cons x es))
      (
        ground (arith, eq_iff s.id x.step_id),
        AreSelected-grow x.step_id x.selected (selected_ids es) steps rest,
      )

-- a list of results that answers steps, all of which succeeded, has a success for each mandatory one
succeeded-AnswersAll :
    (steps : List V1Step) (rs : List StepResult) (s : V1Step)
    → AnswersAll steps rs
    → all (λ (r : StepResult). not r.mandatory || is_success r.status) rs ≡ true
    → s.mandatory ≡ true
    → any (λ (t : V1Step). str_eq t.id s.id && t.mandatory) steps ≡ true
    → succeeded s.id rs ≡ true
unfolding all any
succeeded-AnswersAll [] [] s h a k e = absurd (cc)
succeeded-AnswersAll [] (r ∷ rs) s h a k e = absurd h
succeeded-AnswersAll (t ∷ steps) [] s h a k e = absurd h
succeeded-AnswersAll (t ∷ steps) (r ∷ rs) s ((name, mark), h) a k e =
    ground (arith, eq_iff t.id s.id, eq_iff r.name s.id, succeeded-AnswersAll steps rs s h)

any-append : (q : V1Step → Bool) (xs ys : List V1Step) → any q (xs ++ ys) ≡ (any q xs || any q ys)
unfolding any
any-append q [] ys = refl
any-append q (x ∷ xs) ys = ground (arith, any-append q xs ys)

any-filter :
    (q p : V1Step → Bool) (steps : List V1Step)
    → any q (filter p steps) ≡ any (λ t. p t && q t) steps
unfolding any filter
any-filter q p [] = refl
any-filter q p (x ∷ steps) = ground (arith, any-filter q p steps)

any-or :
    (q p : V1Step → Bool) (steps : List V1Step)
    → any p steps || any q steps ≡ any (λ t. p t || q t) steps
unfolding any
any-or q p [] = refl
any-or q p (x ∷ steps) = ground (arith, any-or q p steps)

module _ (selected : List String) (steps : List V1Step) where
  abbrev performed : List V1Step
  performed = filter (runs_first selected) steps ++ filter (runs_later selected) steps

  abbrev same_mandatory : V1Step → V1Step → Bool
  same_mandatory s t = str_eq t.id s.id && t.mandatory

  any-performed :
      (s : V1Step)
      → any (same_mandatory s) performed
        ≡ any
            (λ t.
              (runs_first selected t && same_mandatory s t)
              || (runs_later selected t && same_mandatory s t))
            steps
  any-performed s =
      any-append (same_mandatory s) (filter (runs_first selected) steps)
        (filter (runs_later selected) steps)
      ∙ rw
          (
            any-filter (same_mandatory s) (runs_first selected) steps,
            any-filter (same_mandatory s) (runs_later selected) steps,
          )
          (any-or (λ t. runs_later selected t && same_mandatory s t)
            (λ t. runs_first selected t && same_mandatory s t) steps)

  all-performed :
      (rs : List StepResult) (l : List V1Step)
      → ((q : V1Step → Bool) → any q l ≡ true → any q steps ≡ true)
      → AreSelected selected l
      → AnswersAll performed rs
      → all (λ (r : StepResult). not r.mandatory || is_success r.status) rs ≡ true
      → All (λ s. not s.mandatory || succeeded s.id rs ≡ true) l
  unfolding any
  all-performed rs [] sub h answers good = tt
  all-performed rs (s ∷ l) sub (e, h) answers good =
      (one s.mandatory refl, all-performed rs l (λ q t. sub q (ground arith)) h answers good)
    where
      one : (b : Bool) → s.mandatory ≡ b → not s.mandatory || succeeded s.id rs ≡ true
      one false k = rw k refl
      one true k =
          let found =
            sub
              (λ t.
                (runs_first selected t && same_mandatory s t)
                || (runs_later selected t && same_mandatory s t))
              (ground (arith, eq_iff s.id s.id, k, e)) in
          let done = succeeded-AnswersAll performed rs s answers good k (any-performed s ∙ found) in
          ground (arith, done)

reported :
    (m : Manifest) (plan : TestPlan) (started now : ℕ) (policy : Option ApprovedReleasePolicy)
    (version : String) (rs : List StepResult) (r : SmokeCheckResult)
    → IsPlanOf m.steps plan.entries
    → AnswersAll (expected m plan) rs
    → build_smoke_check_result rs started now (some plan) policy m.certification_coverage [] ≡ r
    → (eligibility_of version r).eligible ≡ true
    → All (λ t. not t.mandatory || succeeded t.id r.steps ≡ true) m.steps
unfolding build_smoke_check_result selected_step_ids deselected_mandatory_step_ids
reported m plan started now policy version rs r fits h e eligible =
    let r' : SmokeCheckResult =
      build_smoke_check_result rs started now (some plan) policy m.certification_coverage [] in
    let eligible' : (eligibility_of version r').eligible ≡ true =
      subst (λ (x : SmokeCheckResult). (eligibility_of version x).eligible ≡ true) (sym e)
        eligible in
    let facts =
      (eligible_iff rs (deselected_mandatory_step_ids plan) policy version m.certification_coverage
          []).0
        eligible' in
    subst
      (λ (x : SmokeCheckResult).
        All (λ t. not t.mandatory || succeeded t.id x.steps ≡ true) m.steps)
      e
      (all-performed (selected_step_ids plan) m.steps rs m.steps (λ q t. t)
        (selected_of_plan m.steps plan.entries fits facts.2) h facts.1)

-- Let the entries of a plan be those of the steps of a v1 manifest with different identifiers, let each
-- group's thread get a turn for each of its steps, and let a run return a report. If the report says
-- that the run is eligible for certification, then for each mandatory step of the manifest the report
-- holds a mandatory result under the step's identifier that passed or warned.
pub run_manifest_v1-succeeded :
    {C S : Type 0} (p : Performers C S) (faithful : IsFaithful Unit p) (m : Manifest)
    (plan : TestPlan) (v1 : m.schema_version ≡ "v1") (unique : Distinct (ids m.steps)) (ns : List ℕ)
    (enough : HaveTurns ns (build_execution_schedule m plan).execution_groups) (c : C)
    (started now : ℕ) (policy : Option ApprovedReleasePolicy) (s : S) (version : String)
    (r : SmokeCheckResult)
    → IsPlanOf m.steps plan.entries
    → (run_manifest_v1 p ns c started now policy m plan s).0 ≡ ok r
    → (eligibility_of version r).eligible ≡ true
    → All (λ t. not t.mandatory || succeeded t.id r.steps ≡ true) m.steps
unfolding run_manifest_v1
run_manifest_v1-succeeded {C} {S} p faithful m plan v1 unique ns enough c started now policy s
      version r fits gave eligible =
    go (manifest_steps p ns c m plan s)
      (manifest_steps-CollectAnswers Unit p faithful m plan v1 unique ns c s enough) gave
  where
    go :
        (o : Result String (List StepResult) × S)
        → CollectAnswers Unit p faithful (expected m plan) o.0
        → (built started now plan policy m o).0 ≡ ok r
        → All (λ t. not t.mandatory || succeeded t.id r.steps ≡ true) m.steps
    go (err error, s') h e = absurd (cc)
    go (ok rs, s') h e = reported m plan started now policy version rs r fits h (cc) eligible
