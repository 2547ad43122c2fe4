-- ===== src/RunLifecycle.antt =====
-- conformance/api/run_lifecycle.py: the life of one run, from the reservation of the run slot to its
-- end, on the two stores that the request threads and the run's own thread share. What the check
-- engine does to them while it runs, and what the other threads do meanwhile, is a list of actions;
-- what it returns or raises, the making of the HTTP client and the writing of the artifacts are
-- given by an environment.
pub mod Execution
pub mod Outcome
pub mod Marking
use Prim.Native.String
use conformance_suite_v.Base.{
  ℕ, suc, zero, String, Bool, true, false, Option, none, some, List, [], ◌∷◌, ◌++◌, Result, ok, err,
  str_eq, if◌then◌else◌, elem,
}
use conformance_suite_v.Base.Json.{Json, null, str, obj, Fields, field_of, set_field}
use conformance_suite_v.TestPlan.{
  StepKind, http, psu_authorization, StepPhase, setup, execution, V1Step, Manifest, TestPlan,
  default_plan_from_manifest, selected_step_ids,
}
use conformance_suite_v.AuthSession
use conformance_suite_v.AuthSession.{AuthSessionStore, discard_for_run}
use conformance_suite_v.AuthSession.Calls.{Call, apply}
use conformance_suite_v.BrowserLogger.{Event, emit}
use conformance_suite_v.RunStore.{
  RunRecord, RunStore, RunStoreError, RunPlanStep, create_run, get_run, mark_running,
  mark_completed, mark_failed, set_participant_action, clear_participant_action,
}
use conformance_suite_v.Report.Development.{mark_development_result_evidence}

-- the two stores, and the log of the run
pub record World : Type 0 where
  pub runs : RunStore
  pub sessions : AuthSessionStore
  pub log : List Event

-- what happens while the engine runs: an event of the run, a call on the session store by any
-- thread, and an attempt of a request thread to start a run
pub data Action : Type 0 where
  event_action : Event → ℕ → Action
  session_action : Call → Action
  create_action : String → ℕ → List RunPlanStep → Option Json → Option Json → Action

-- the logger is decorated in a run that the browser launched
unfoldable pub act : Bool → String → World → Action → World
act true run_id w (event_action e now) =
    let (raised, runs, log) = emit run_id e now w.runs w.log in record w { runs = runs; log = log }
act false run_id w (event_action e now) = record w { log = w.log ++ e ∷ [] }
act browser run_id w (session_action c) = record w { sessions = apply w.sessions c }
act browser run_id w (create_action j now steps plan validation) = record w {
  runs = (create_run j now steps plan validation w.runs).1;
}

unfoldable pub act_all : Bool → String → World → List Action → World
act_all browser run_id w [] = w
act_all browser run_id w (a ∷ actions) = act_all browser run_id (act browser run_id w a) actions

pub data ClientOutcome : Type 0 where
  built : ClientOutcome
  setup_error : String → ClientOutcome
  client_raised : ClientOutcome

-- the JSON object of a result, or an exception
pub data EngineOutcome : Type 0 where
  returned : Fields → EngineOutcome
  raised : EngineOutcome

pub data PersistOutcome : Type 0 where
  written : PersistOutcome
  os_error : String → PersistOutcome
  persist_raised : PersistOutcome

pub record Launch (P : Type 0) : Type 0 where
  pub compiled_plan : Option P
  pub runtime_inputs : Option Fields
  pub runtime_input_base_dir : Option String
  pub manifest : Option Manifest
  pub plan : Option TestPlan
  pub browser_psu_prompts : Bool

-- the engines, the HTTP client and the files
pub record Environment (P : Type 0) : Type 0 where
  pub smoke_check : List Action × EngineOutcome
  pub run_compiled : P → Fields → String → List Action × EngineOutcome
  pub run_manifest : Manifest → TestPlan → List Action × EngineOutcome
  pub http_client : ClientOutcome
  pub persist : Fields → PersistOutcome

-- `_attach_plan_evidence`
abbrev attach_snapshot : Option Json → Fields → Fields
attach_snapshot (some (obj snapshot)) result = set_field result "testPlanSnapshot" (obj snapshot)
attach_snapshot _ result = result

abbrev attach_validation : Option Json → Fields → Fields
attach_validation (some (obj validation)) result =
    mark_development_result_evidence validation
      (set_field result "testPlanValidation" (obj validation))
attach_validation _ result = result

unfoldable pub attach_plan_evidence : RunRecord → Fields → Fields
attach_plan_evidence r result =
    attach_validation r.validation_result (attach_snapshot r.plan_snapshot result)

-- how a run ends: by `mark_completed` or by `mark_failed`
pub data Ending : Type 0 where
  complete : Json → Ending
  fail : String → Ending

abbrev pub internal_error : String
internal_error = "An internal error occurred"

abbrev pub end_run : String → ℕ → Ending → RunStore → RunStore
end_run run_id now (complete result) st = mark_completed run_id now result st
end_run run_id now (fail error) st = mark_failed run_id now error st

-- the `finally` clause
abbrev pub discard_sessions : String → World → World
discard_sessions run_id w = record w { sessions = (discard_for_run run_id w.sessions).1 }

module _ {P : Type 0} (env : Environment P) where
  abbrev run_compiled_plan : P → Option Fields → Option String → List Action × EngineOutcome
  run_compiled_plan p (some inputs) (some dir) = env.run_compiled p inputs dir
  run_compiled_plan p _ _ = ([], raised)

  abbrev manifest_plan : Option TestPlan → Manifest → TestPlan
  manifest_plan (some plan) m = plan
  manifest_plan none m = default_plan_from_manifest m

  -- the engine that the launch asks for
  abbrev engine : Option P → Option Manifest → Launch P → List Action × EngineOutcome
  engine (some p) manifest l = run_compiled_plan p l.runtime_inputs l.runtime_input_base_dir
  engine none (some m) l = env.run_manifest m (manifest_plan l.plan m)
  engine none none l = env.smoke_check

  -- the smoke check makes its own client
  abbrev pub client_of : Option P → Option Manifest → ClientOutcome
  client_of none none = built
  client_of _ _ = env.http_client

  abbrev run_with : ClientOutcome → Launch P → List Action × EngineOutcome
  run_with built l = engine l.compiled_plan l.manifest l
  run_with _ l = ([], raised)

  -- the actions of the run and what the engine gave; it is not called without a client
  unfoldable pub run_engine : Launch P → List Action × EngineOutcome
  run_engine l = run_with (client_of l.compiled_plan l.manifest) l

  abbrev after_persist : Fields → PersistOutcome → Ending
  after_persist result written = complete (obj result)
  after_persist result (os_error error) = fail (String.◌++◌ "Artifact persistence failed: " error)
  after_persist result persist_raised = fail internal_error

  abbrev after_engine : RunRecord → EngineOutcome → Ending
  after_engine r raised = fail internal_error
  after_engine r (returned result) =
      after_persist (attach_plan_evidence r result) (env.persist (attach_plan_evidence r result))

  abbrev after_client : RunRecord → Launch P → ClientOutcome → Ending
  after_client r l built = after_engine r (run_engine l).1
  after_client r l (setup_error error) = fail (String.◌++◌ "HTTP client setup failed: " error)
  after_client r l client_raised = fail internal_error

  unfoldable pub ending : RunRecord → Launch P → Ending
  unfolding run_engine attach_plan_evidence
  ending r l = after_client r l (client_of l.compiled_plan l.manifest)

  -- the body of the `try`: a run that is gone is left alone
  abbrev run_record : Launch P → String → ℕ → Option RunRecord → World → World
  run_record l run_id now none w = w
  run_record l run_id now (some r) w =
      let w' = act_all l.browser_psu_prompts run_id w (run_engine l).0 in
      record w' { runs = end_run run_id now (ending r l) w'.runs }

  -- `_execute_run`, started and ended at these times
  unfoldable pub execute_run : Launch P → String → ℕ → ℕ → World → World
  execute_run l run_id started ended w =
      let w' = record w { runs = mark_running run_id started w.runs } in
      discard_sessions run_id (run_record l run_id ended (get_run run_id w'.runs) w')
