-- ===== src/RunLaunch.antt =====
-- `start_run` of conformance/api/run_lifecycle.py: the plan of a launch, the steps that are announced
-- for it, and the reservation of the run slot.
pub mod Announced
pub mod Slot
use Prim.Native.String
use conformance_suite_v.Base.{
  ℕ, suc, zero, String, Bool, true, false, Option, none, some, List, [], ◌∷◌, ◌++◌, Result, ok, err,
  str_eq, if◌then◌else◌, elem,
}
use conformance_suite_v.Base.Json.{Json, null, str, obj, Fields, field_of, set_field}
use conformance_suite_v.TestPlan.{
  StepKind, http, psu_authorization, StepPhase, setup, execution, V1Step, Manifest, TestPlan,
  default_plan_from_manifest, selected_step_ids,
}
use conformance_suite_v.AuthSession
use conformance_suite_v.AuthSession.{AuthSessionStore, discard_for_run}
use conformance_suite_v.AuthSession.Calls.{Call, apply}
use conformance_suite_v.RunStore.{
  RunRecord, RunStore, RunStoreError, RunPlanStep, create_run, get_run, mark_running,
  mark_completed, mark_failed, set_participant_action, clear_participant_action,
}
use conformance_suite_v.Report.Development.{mark_development_result_evidence}
use conformance_suite_v.RunLifecycle.{Launch, World}

-- `_effective_plan_for_launch`
unfoldable pub effective_plan_for_launch : Option Manifest → Option TestPlan → Option TestPlan
effective_plan_for_launch none plan = none
effective_plan_for_launch (some m) (some plan) = some plan
effective_plan_for_launch (some m) none = some (default_plan_from_manifest m)

abbrev pub manifest_step_kind : StepKind → String
manifest_step_kind psu_authorization = "psu-authorization"
manifest_step_kind http = "http"

abbrev pub phase_text : StepPhase → String
phase_text setup = "setup"
phase_text execution = "execution"

abbrev pub plan_step : V1Step → ℕ → RunPlanStep
plan_step step order = record {
  step_id = step.id;
  name = step.name;
  kind = manifest_step_kind step.kind;
  group = some step.group;
  phase = some (phase_text step.phase);
  mandatory = step.mandatory;
  optional = step.optional;
  order = order;
}

-- the loop over `manifest.steps`, with `len(planned_steps)`
unfoldable pub planned_steps : List String → ℕ → List V1Step → List RunPlanStep
planned_steps selected n [] = []
planned_steps selected n (step ∷ steps) =
    let taken = plan_step step n ∷ planned_steps selected (suc n) steps in
    let left = planned_steps selected n steps in if elem step.id selected then taken else left

abbrev steps_selected : List String → List V1Step → List RunPlanStep
steps_selected [] steps = []
steps_selected (i ∷ ids) steps = planned_steps (i ∷ ids) 0 steps

-- `_selected_planned_steps_snapshot`; the steps of a compiled plan are what
-- `_compiled_plan_steps_snapshot` returns
unfoldable pub selected_planned_steps_snapshot :
    Option (List RunPlanStep) → Option Manifest → Option TestPlan → List RunPlanStep
selected_planned_steps_snapshot (some compiled_steps) manifest plan = compiled_steps
selected_planned_steps_snapshot none (some m) (some plan) =
    steps_selected (selected_step_ids plan) m.steps
selected_planned_steps_snapshot none _ _ = []

-- `start_run` up to the start of the thread: the `ValueError`, the `RunConflictError`, or the record
-- whose status is returned
pub data StartError : Type 0 where
  missing_inputs : StartError
  store_error : RunStoreError → StartError

abbrev pub lacks_inputs {ℓ} : {P : Type ℓ} → Option P → Option Fields → Option String → Bool
lacks_inputs none inputs dir = false
lacks_inputs (some p) (some inputs) (some dir) = false
lacks_inputs (some p) _ _ = true

abbrev reserved : Result RunStoreError RunRecord → Result StartError RunRecord
reserved (ok r) = ok r
reserved (err e) = err (store_error e)

unfoldable pub start_run :
    {P : Type 0}
    → Launch P
    → Option (List RunPlanStep)
    → Option Json
    → Option Json
    → String
    → ℕ
    → World
    → Result StartError RunRecord × World
start_run l compiled_steps plan_snapshot validation_result run_id now w =
    if lacks_inputs l.compiled_plan l.runtime_inputs l.runtime_input_base_dir
    then (err missing_inputs, w)
    else let plan = effective_plan_for_launch l.manifest l.plan in
      let steps = selected_planned_steps_snapshot compiled_steps l.manifest plan in
      let (made, runs) = create_run run_id now steps plan_snapshot validation_result w.runs in
      (reserved made, record w { runs = runs })
