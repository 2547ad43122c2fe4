-- ===== src/RunLifecycle/Marking.antt =====
-- A run whose plan was checked in development mode (conformance/api/run_lifecycle.py with
-- conformance/results.py).
use conformance_suite_v.Base.{ℕ, String, ◌≡◌, refl, sym, ◌∙◌, ap, true, Option, some}
use conformance_suite_v.Base.Json.{
  Json, obj, Fields, field_of, set_field, is_text, field_of-set_field,
}
use conformance_suite_v.Base.Dict.{get}
use conformance_suite_v.RunStore.{RunRecord}
use conformance_suite_v.Report.Development.{mark_development_result_evidence-is_refused, is_refused}
use conformance_suite_v.RunLifecycle.{
  World, Launch, Environment, attach_plan_evidence, attach_snapshot, execute_run, run_engine,
  returned,
}
use conformance_suite_v.RunLifecycle.Execution.{IsRunning}
use conformance_suite_v.RunLifecycle.Outcome.{HasResult, execute_run-HasResult_iff}

eligibility-attach_snapshot :
    (snapshot : Option Json) (result : Fields)
    → field_of (attach_snapshot snapshot result) "certificationEligibility"
      ≡ field_of result "certificationEligibility"
eligibility-attach_snapshot (some (obj s)) result =
    field_of-set_field result "testPlanSnapshot" "certificationEligibility" (obj s)
eligibility-attach_snapshot _ result = refl

refused-attach_plan_evidence :
    (r : RunRecord) (validation own eligibility : Fields)
    → r.validation_result ≡ some (obj validation)
    → is_text "development" (field_of validation "executionMode") ≡ true
    → field_of own "certificationEligibility" ≡ some (obj eligibility)
    → is_refused (field_of (attach_plan_evidence r own) "certificationEligibility") ≡ true
unfolding attach_plan_evidence
refused-attach_plan_evidence r validation own eligibility given mode found =
    let noted : Fields = attach_snapshot r.plan_snapshot own in
    let added : Fields = set_field noted "testPlanValidation" (obj validation) in
    let still : field_of added "certificationEligibility" ≡ some (obj eligibility) =
      field_of-set_field noted "testPlanValidation" "certificationEligibility" (obj validation)
      ∙ eligibility-attach_snapshot r.plan_snapshot own
      ∙ found in
    rw given (mark_development_result_evidence-is_refused validation added eligibility mode still)

-- If the plan of a run was checked in development mode, then the result that its execution stores
-- when it completes says that the run is not eligible for certification, with the development mode as
-- its reason, whatever eligibility block the engine gave.
pub execute_run-is_refused :
    {P : Type 0} (env : Environment P) (l : Launch P) (k : String) (started ended : ℕ) (w : World)
    (r : RunRecord) (validation own eligibility result : Fields)
    → IsRunning k w
    → get w.runs.runs k ≡ some r
    → r.validation_result ≡ some (obj validation)
    → is_text "development" (field_of validation "executionMode") ≡ true
    → (run_engine env l).1 ≡ returned own
    → field_of own "certificationEligibility" ≡ some (obj eligibility)
    → HasResult result (get (execute_run env l k started ended w).runs.runs k)
    → is_refused (field_of result "certificationEligibility") ≡ true
execute_run-is_refused env l k started ended w r validation own eligibility result running found
      given mode gave block done =
    let succeeds =
      (execute_run-HasResult_iff env l k started ended w r result running found).0 done in
    let (own', gave', made) = succeeds.1 in
    let same : own' ≡ own = cc in
    let attached : attach_plan_evidence r own ≡ result =
      ap (attach_plan_evidence r) (sym same) ∙ made in
    rw (← attached) (refused-attach_plan_evidence r validation own eligibility given mode block)
