-- ===== src/Tests/Lifecycle.antt =====
-- The life of a run (conformance/api/run_lifecycle.py) in use.
use conformance_suite_v.Base.{
  err, ℕ, String, ◌≡◌, ◌⊎◌, ◌↔◌, refl, true, false, none, some, [], ◌∷◌, map, ok, is_ok, length,
}
use conformance_suite_v.Base.Json.{str, bool, obj, Fields, end, field, field_of}
use conformance_suite_v.Base.Dict.{get, put}
use conformance_suite_v.Base.Dict.Distinct.{del_all, keys_where}
use conformance_suite_v.TestPlan.{V1Step, selected_step_ids}
use conformance_suite_v.AuthSession
use conformance_suite_v.AuthSession.{AuthSessionStore, register, for_run, discard_for_run}
use conformance_suite_v.AuthSession.Calls.{register_call, code_call}
use conformance_suite_v.AuthSession.Invariant as SessionInvariant
use conformance_suite_v.RunStore
use conformance_suite_v.RunStore.{
  get_run, mark_running, mark_failed, finish_run, update_run, prune_terminal_records, evicted,
  RunStore, RunRecord, RunPlanStep, new_record, create_run,
}
use conformance_suite_v.RunStore.Invariant
use conformance_suite_v.Report.Development.{is_refused}
use conformance_suite_v.BrowserLogger.{Event}
use conformance_suite_v.BrowserLogger.Shown.{shown, shown_after_all, emit_all, emit_all-shown}
use conformance_suite_v.RunLifecycle.{
  World, event_action, session_action, create_action, Launch, Environment, EngineOutcome, returned,
  raised, built, written, execute_run, ending, act_all, attach_plan_evidence, run_engine,
}
use conformance_suite_v.RunLifecycle.Execution.{IsRunning}
use conformance_suite_v.RunLifecycle.Outcome.{
  IsOver, HasResult, Succeeds, execute_run_ends, execute_run-HasResult_iff,
}
use conformance_suite_v.RunLifecycle.Marking.{execute_run-is_refused}
use conformance_suite_v.RunLaunch.{start_run, missing_inputs}
use conformance_suite_v.RunLaunch.Slot.{
  IsValid, start-IsRunning, HasInputs, AllOver, IsLaunchOutcome, start_run_iff,
  start_run-execute_run,
}
use conformance_suite_v.RunLaunch.Announced.{
  selected_of, count_from, selected_planned_steps_snapshot-IsAnnounced,
}
use conformance_suite_v.RunLaunch.{selected_planned_steps_snapshot}
use conformance_suite_v.Tests.Plans.{manifest, plan}

abbrev smoke : Launch String
smoke = record {
  compiled_plan = none;
  runtime_inputs = none;
  runtime_input_base_dir = none;
  manifest = none;
  plan = none;
  browser_psu_prompts = true;
}

abbrev idle_world : World
idle_world = record { runs = RunStore.empty; sessions = AuthSession.empty; log = [] }

idle-IsValid : IsValid idle_world
idle-IsValid = record { runs = Invariant.empty-IsValid; sessions = SessionInvariant.empty-IsValid }

abbrev validation : Fields
validation = field "executionMode" (str "development") end

abbrev busy_world : World
busy_world = (start_run smoke none none (some (obj validation)) "run-1" 3 idle_world).1

busy-IsRunning : IsRunning "run-1" busy_world
unfolding get RunStore.create_run
busy-IsRunning =
    start-IsRunning smoke none none (some (obj validation)) "run-1" 3 idle_world idle-IsValid refl
      refl refl

abbrev eligibility : Fields
eligibility = field "eligible" (bool true) end

abbrev own : Fields
own = field "status" (str "passed") (field "certificationEligibility" (obj eligibility) end)

abbrev prompt : Event
prompt = record {
  event_type = "psu-authorization-url";
  step_id = some "consent";
  payload = some (field "url" (str "https://bank.example/authorize") end);
}

abbrev callback : Event
callback = record { event_type = "auth-callback-received"; step_id = none; payload = none }

abbrev environment : EngineOutcome → Environment String
environment outcome = record {
  smoke_check = (
    session_action (register_call "run-1" none "state-of-the-redirect-0123456789abcdef" 5)
        ∷ event_action prompt 6
        ∷ create_action "run-2" 7 [] none none
        ∷ session_action (code_call "state-of-the-redirect-0123456789abcdef" "code" 8)
        ∷ event_action callback 9
        ∷ [],
    outcome,
  );
  run_compiled = λ p inputs dir. ([], raised);
  run_manifest = λ m p. ([], raised);
  http_client = built;
  persist = λ result. written;
}

abbrev after_run : EngineOutcome → World
after_run outcome = execute_run (environment outcome) smoke "run-1" 4 10 busy_world

execute_run_ends_example :
    IsOver 10 (get (after_run raised).runs.runs "run-1")
    × ((after_run raised).runs.active_run_id ≡ none)
    × (for_run "run-1" (after_run raised).sessions ≡ [])
    × Invariant.IsValid (after_run raised).runs
    × SessionInvariant.IsValid (after_run raised).sessions
execute_run_ends_example =
    execute_run_ends (environment raised) smoke "run-1" 4 10 busy_world busy-IsRunning

abbrev first_record : RunRecord
first_record = new_record "run-1" 3 [] none (some (obj validation))

first_stored : get busy_world.runs.runs "run-1" ≡ some first_record
unfolding start_run get create_run prune_terminal_records del_all evicted keys_where put
    selected_planned_steps_snapshot
first_stored = refl

abbrev stored_result : Fields
stored_result = attach_plan_evidence first_record own

execute_run-HasResult_iff_example :
    HasResult stored_result (get (after_run (returned own)).runs.runs "run-1")
    ↔ Succeeds (environment (returned own)) smoke first_record stored_result
execute_run-HasResult_iff_example =
    execute_run-HasResult_iff (environment (returned own)) smoke "run-1" 4 10 busy_world
      first_record stored_result busy-IsRunning first_stored

completed_run : HasResult stored_result (get (after_run (returned own)).runs.runs "run-1")
unfolding run_engine
completed_run = execute_run-HasResult_iff_example.1 (refl, (own, refl, refl), refl)

execute_run-is_refused_example :
    is_refused (field_of stored_result "certificationEligibility") ≡ true
unfolding run_engine field_of
execute_run-is_refused_example =
    execute_run-is_refused (environment (returned own)) smoke "run-1" 4 10 busy_world first_record
      validation own eligibility stored_result busy-IsRunning first_stored refl refl refl refl
      completed_run

start_run_iff_example :
    ((is_ok (start_run smoke none none none "run-3" 12 idle_world).0 ≡ true) ↔ (
      HasInputs smoke.compiled_plan smoke.runtime_inputs smoke.runtime_input_base_dir
      × AllOver idle_world))
    × IsLaunchOutcome smoke none none none "run-3" 12 idle_world
        (start_run smoke none none none "run-3" 12 idle_world)
unfolding get
start_run_iff_example = start_run_iff smoke none none none "run-3" 12 idle_world idle-IsValid refl

-- a compiled plan whose inputs have no directory
without_directory :
    (start_run
      (record smoke {
        compiled_plan = some "plan";
        runtime_inputs = some conformance_suite_v.Base.Json.end;
      })
      none
      none
      none
      "run-3"
      12
      idle_world).0
    ≡ err missing_inputs
unfolding start_run
without_directory = refl

-- a second launch, while the first run executes
second_launch : is_ok (start_run smoke none none none "run-2" 4 busy_world).0 ≡ false
unfolding start_run create_run get
second_launch = refl

-- an engine that raises at once
abbrev failing : Environment String
failing = record (environment raised) { smoke_check = ([], raised) }

abbrev after_failure : World
after_failure = execute_run failing smoke "run-1" 4 10 busy_world

third_fresh : get after_failure.runs.runs "run-3" ≡ none
unfolding execute_run get get_run mark_running start_run create_run prune_terminal_records del_all
    evicted keys_where put ending mark_failed act_all run_engine finish_run update_run
    selected_planned_steps_snapshot
third_fresh = refl

start_run-execute_run_example :
    (is_ok (start_run smoke none none none "run-3" 12 after_failure).0 ≡ true)
    × IsRunning "run-3" (start_run smoke none none none "run-3" 12 after_failure).1
start_run-execute_run_example =
    start_run-execute_run failing smoke smoke none none none "run-1" "run-3" 4 10 12 busy_world
      busy-IsRunning third_fresh refl

selected_planned_steps_snapshot-IsAnnounced_example :
    (map
        (λ (s : RunPlanStep). s.step_id)
        (selected_planned_steps_snapshot none (some manifest) (some plan))
      ≡ map (λ (s : V1Step). s.id) (selected_of (selected_step_ids plan) manifest.steps))
    × (map
          (λ (s : RunPlanStep). s.mandatory)
          (selected_planned_steps_snapshot none (some manifest) (some plan))
        ≡ map (λ (s : V1Step). s.mandatory) (selected_of (selected_step_ids plan) manifest.steps))
    × (map
          (λ (s : RunPlanStep). s.order)
          (selected_planned_steps_snapshot none (some manifest) (some plan))
        ≡ count_from 0 (length (selected_planned_steps_snapshot none (some manifest) (some plan))))
selected_planned_steps_snapshot-IsAnnounced_example =
    selected_planned_steps_snapshot-IsAnnounced manifest plan

emit_all-shown_example :
    (shown "run-1" "consent" (emit_all "run-1" ((prompt, 6) ∷ []) busy_world.runs []).0
      ≡ shown_after_all "consent" ((prompt, 6) ∷ []) (shown "run-1" "consent" busy_world.runs))
    × ((emit_all "run-1" ((prompt, 6) ∷ []) busy_world.runs []).1
        ≡ map (λ (e : Event × ℕ). e.0) ((prompt, 6) ∷ []))
unfolding start_run create_run get prune_terminal_records del_all evicted keys_where put
emit_all-shown_example = emit_all-shown "run-1" "consent" ((prompt, 6) ∷ []) busy_world.runs [] refl
