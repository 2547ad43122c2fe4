-- ===== src/Tests/Execution.antt =====
-- A run of a manifest (conformance/executor.py) in use.
use conformance_suite_v.Base.{
  ℕ, suc, String, ◌≡◌, ◌⊎◌, refl, true, false, not, ◌||◌, Option, none, some, List, [], ◌∷◌, ok,
  err, All, arith, elem, filter, count_if,
}
use conformance_suite_v.Base.Dict.{get, put}
use conformance_suite_v.Base.Dict.Distinct.{Distinct}
use conformance_suite_v.TestPlan.{
  V1Step, TestPlan, complete, default_plan_from_manifest, selected_step_ids,
  deselected_mandatory_step_ids,
}
use conformance_suite_v.Schedule.{build_execution_schedule}
use conformance_suite_v.Report.{
  StepResult, passed, SmokeCheckResult, ApprovedReleasePolicy, build_eligibility,
  eligibility_reasons, eligibility_of, build_smoke_check_result,
}
use conformance_suite_v.Executor.{
  execute_step_sequence, execute_manifest_step, collect, turns, turn, sort_results, manifest_order,
  order_from, Performers, Performer, run_manifest_v1, execute_groups_concurrently,
}
use conformance_suite_v.Executor.Workers.{ids, IsFaithful, AnswersAll}
use conformance_suite_v.Executor.Turns.{HaveTurns, zeros, downs}
use conformance_suite_v.Executor.Answers.{expected}
use conformance_suite_v.Executor.Eligible.{
  IsPlanOf, succeeded, run_manifest_v1-AnswersAll, run_manifest_v1-succeeded,
}
use conformance_suite_v.Executor.Independent.{IsIndependent, execute_groups_concurrently_any}
use conformance_suite_v.Tests.Plans.{
  manifest, token_step, accounts_step, payment_step, balances_step,
}

abbrev step_result : V1Step → StepResult
step_result step = record {
  name = step.id;
  status = passed;
  message = "ok";
  url = none;
  status_code = some 200;
  details = [];
  mandatory = false;
}

-- a bank at which every step passes; the threads share the number of requests
abbrev counting : Performer (List String) ℕ
counting step c s = (ok (step_result step, step.id ∷ c), suc s)

abbrev bank : Performers (List String) ℕ
bank = record {
  psu_step = counting;
  http_step = counting;
  run_v0 = λ m s. (err "no v0 run", s);
  emit = λ e s. s;
}

abbrev default_plan : TestPlan
default_plan = default_plan_from_manifest manifest

bank-IsFaithful : (R : Type 0) → IsFaithful R bank
bank-IsFaithful R = record { psu = λ step c s. (refl, refl); http = λ step c s. (refl, refl) }

bank-IsIndependent : IsIndependent bank
bank-IsIndependent = record { psu = λ step c s t. refl; http = λ step c s t. refl }

manifest_ids : Distinct (ids manifest.steps)
unfolding elem
manifest_ids = (refl, (refl, (refl, (refl, (refl, tt)))))

-- the threads of `ais` and `pis` take turns
abbrev alternating : List ℕ
alternating = 0 ∷ 1 ∷ 0 ∷ []

abbrev one_by_one : List ℕ
one_by_one = 1 ∷ 0 ∷ 0 ∷ []

enough_turns :
    HaveTurns alternating (build_execution_schedule manifest default_plan).execution_groups
unfolding build_execution_schedule zeros downs elem selected_step_ids filter
    default_plan_from_manifest get put
enough_turns = (omega arith, (omega arith, tt))

enough_in_turn :
    HaveTurns one_by_one (build_execution_schedule manifest default_plan).execution_groups
unfolding build_execution_schedule zeros downs elem selected_step_ids filter
    default_plan_from_manifest get put
enough_in_turn = (omega arith, (omega arith, tt))

run_manifest_v1-AnswersAll_example :
    ⊥
    ⊎ ((r : SmokeCheckResult) × ((run_manifest_v1 bank alternating [] 1 9 none manifest default_plan
            0).0
          ≡ ok r)
        × AnswersAll (expected manifest default_plan) r.steps)
run_manifest_v1-AnswersAll_example =
    run_manifest_v1-AnswersAll ⊥ bank (bank-IsFaithful ⊥) manifest default_plan refl manifest_ids
      alternating enough_turns [] 1 9 none 0

execute_groups_concurrently_any_example :
    (execute_groups_concurrently bank alternating
      (build_execution_schedule manifest default_plan).execution_groups
      []
      manifest
      0).0
    ≡ (execute_groups_concurrently bank one_by_one
        (build_execution_schedule manifest default_plan).execution_groups
        []
        manifest
        7).0
execute_groups_concurrently_any_example =
    execute_groups_concurrently_any bank alternating one_by_one
      (build_execution_schedule manifest default_plan).execution_groups [] manifest 0 7
      bank-IsIndependent enough_turns enough_in_turn

abbrev policy : Option ApprovedReleasePolicy
policy = some (record { schema_version = "v1"; approved_tool_versions = "2.0.0" ∷ [] })

abbrev mandatory_result : V1Step → StepResult
mandatory_result step = record (step_result step) { mandatory = true }

-- the report of the run, in the order of the manifest
abbrev report : SmokeCheckResult
report =
    build_smoke_check_result
      (mandatory_result token_step
        ∷ mandatory_result accounts_step
        ∷ step_result payment_step
        ∷ step_result balances_step
        ∷ [])
      1 9 (some default_plan) policy complete []

reported : (run_manifest_v1 bank alternating [] 1 9 policy manifest default_plan 0).0 ≡ ok report
unfolding run_manifest_v1 execute_step_sequence build_execution_schedule elem selected_step_ids
    filter default_plan_from_manifest execute_manifest_step execute_groups_concurrently collect
    turns turn get put sort_results manifest_order order_from
reported = refl

default-IsPlanOf : IsPlanOf manifest.steps default_plan.entries
unfolding default_plan_from_manifest
default-IsPlanOf =
    ((refl, refl), ((refl, refl), ((refl, refl), ((refl, refl), ((refl, refl), tt)))))

report_eligible : (eligibility_of "2.0.0" report).eligible ≡ true
unfolding build_smoke_check_result build_eligibility eligibility_reasons
    deselected_mandatory_step_ids filter default_plan_from_manifest count_if elem
report_eligible = refl

run_manifest_v1-succeeded_example :
    All (λ (t : V1Step). not t.mandatory || succeeded t.id report.steps ≡ true) manifest.steps
run_manifest_v1-succeeded_example =
    run_manifest_v1-succeeded bank (bank-IsFaithful Unit) manifest default_plan refl manifest_ids
      alternating enough_turns [] 1 9 policy 0 "2.0.0" report default-IsPlanOf reported
      report_eligible
