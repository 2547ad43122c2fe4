-- ===== src/BrowserLogger.antt =====
-- `BrowserParticipantActionLogger` of conformance/api/run_lifecycle.py: the logger that shows a browser
-- the authorisation URL that a run waits for, through the run store.
pub mod Actions
pub mod Shown
use Prim.Native.String
use conformance_suite_v.Base.{
  ℕ, suc, zero, String, Bool, true, false, Option, none, some, List, [], ◌∷◌, ◌++◌, Result, ok, err,
  str_eq, if◌then◌else◌, elem,
}
use conformance_suite_v.Base.Json.{Json, null, str, obj, Fields, field_of, set_field}
use conformance_suite_v.TestPlan.{
  StepKind, http, psu_authorization, StepPhase, setup, execution, V1Step, Manifest, TestPlan,
  default_plan_from_manifest, selected_step_ids,
}
use conformance_suite_v.AuthSession
use conformance_suite_v.AuthSession.{AuthSessionStore, discard_for_run}
use conformance_suite_v.AuthSession.Calls.{Call, apply}
use conformance_suite_v.RunStore.{
  RunRecord, RunStore, RunStoreError, RunPlanStep, create_run, get_run, mark_running,
  mark_completed, mark_failed, set_participant_action, clear_participant_action,
}
use conformance_suite_v.Report.Development.{mark_development_result_evidence}

-- an event of the execution log
pub record Event : Type 0 where
  pub event_type : String
  pub step_id : Option String
  pub payload : Option Fields

-- `(payload or {}).get("url")`, if it is a text
abbrev pub text_of : Option Json → Option String
text_of (some (str s)) = some s
text_of _ = none

abbrev pub url_of : Option Fields → Option String
url_of none = none
url_of (some payload) = text_of (field_of payload "url")

-- `_set_participant_action`
abbrev set_action :
    String
    → Option String
    → Option String
    → ℕ
    → RunStore
    → Result RunStoreError (Unit {0}) × RunStore
set_action run_id (some step_id) (some url) now st =
    set_participant_action run_id step_id url now st
set_action run_id _ _ now st = (ok tt, st)

-- what `BrowserParticipantActionLogger.emit` does before it hands the event on
unfoldable pub observe : String → Event → ℕ → RunStore → Result RunStoreError (Unit {0}) × RunStore
observe run_id e now st =
    if str_eq e.event_type "psu-authorization-url"
    then set_action run_id e.step_id (url_of e.payload) now st
    else elim (str_eq e.event_type "step-completed") [
      | true ↦ elim e.step_id [
        | some step_id ↦ (ok tt, clear_participant_action run_id (some step_id) now st)
        | none ↦ (ok tt, st)
      ]
      | false ↦
          if elem e.event_type
            ("auth-callback-received" ∷ "run-completed" ∷ "application-error" ∷ [])
          then (ok tt, clear_participant_action run_id none now st)
          else (ok tt, st)
    ]

abbrev forward :
    Event
    → List Event
    → Result RunStoreError (Unit {0}) × RunStore
    → Result RunStoreError (Unit {0}) × RunStore × List Event
forward e log (ok tt, st) = (ok tt, st, log ++ e ∷ [])
forward e log (err raised, st) = (err raised, st, log)

-- `BrowserParticipantActionLogger.emit`; the wrapped logger is the list of the events that it was given
unfoldable pub emit :
    String
    → Event
    → ℕ
    → RunStore
    → List Event
    → Result RunStoreError (Unit {0}) × RunStore × List Event
emit run_id e now st log = forward e log (observe run_id e now st)
