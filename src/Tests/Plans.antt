-- ===== src/Tests/Plans.antt =====
-- Test plans and schedules (conformance/test_plan.py, conformance/execution_schedule.py) in use.
use conformance_suite_v.Base.{
  is_ok, ℕ, ◌+◌, String, ◌≡◌, ◌≢◌, refl, Bool, true, false, not, ◌&&◌, List, [], ◌∷◌, map, Result,
  ok, err, ◌↔◌, arith, eq_iff, str_eq, elem, filter, any, all, length, count_if, if◌then◌else◌,
}
use conformance_suite_v.TestPlan.{
  V1Step, http, psu_authorization, setup, execution, Manifest, complete, TestPlanEntry, TestPlan,
  default_plan_from_manifest, with_deselection, entry_ids, selected_step_ids, deselected_step_ids,
  deselected_mandatory_step_ids, is_eligible_by_selection, summary,
}
use conformance_suite_v.TestPlan.Selection.{
  is_ok-with_deselection, selected-with_deselection, summary_counts, is_eligible_by_selection_iff,
  default_plan_eligible,
}
use conformance_suite_v.Schedule.{build_execution_schedule}
use conformance_suite_v.Schedule.Groups.{IsSchedule, build_execution_schedule-IsSchedule}

abbrev pub token_step : V1Step
token_step = record {
  id = "token";
  name = "Obtain a token";
  kind = psu_authorization;
  phase = setup;
  group = "auth";
  mandatory = true;
  optional = false;
}

abbrev pub accounts_step : V1Step
accounts_step = record {
  id = "accounts";
  name = "Read the accounts";
  kind = http;
  phase = execution;
  group = "ais";
  mandatory = true;
  optional = false;
}

abbrev pub payment_step : V1Step
payment_step = record {
  id = "payment";
  name = "Make a payment";
  kind = http;
  phase = execution;
  group = "pis";
  mandatory = false;
  optional = false;
}

abbrev pub balances_step : V1Step
balances_step = record {
  id = "balances";
  name = "Read the balances";
  kind = http;
  phase = execution;
  group = "ais";
  mandatory = false;
  optional = false;
}

abbrev offers_step : V1Step
offers_step = record {
  id = "offers";
  name = "Read the offers";
  kind = http;
  phase = execution;
  group = "ais";
  mandatory = false;
  optional = true;
}

abbrev pub manifest : Manifest
manifest = record {
  schema_version = "v1";
  certification_coverage = complete;
  steps = token_step ∷ accounts_step ∷ payment_step ∷ balances_step ∷ offers_step ∷ [];
}

abbrev pub plan : TestPlan
plan = record {
  entries =
      record { step_id = "token"; mandatory = true; optional = false; selected = true }
      ∷ record { step_id = "accounts"; mandatory = true; optional = false; selected = true }
      ∷ record { step_id = "offers"; mandatory = false; optional = true; selected = false }
      ∷ [];
}

default_selection :
    selected_step_ids (default_plan_from_manifest manifest)
    ≡ "token" ∷ "accounts" ∷ "payment" ∷ "balances" ∷ []
unfolding selected_step_ids default_plan_from_manifest filter
default_selection = refl

schedule_runs : build_execution_schedule manifest (default_plan_from_manifest manifest) ≡ record {
  setup_steps = token_step ∷ [];
  execution_groups =
      record { group_id = "ais"; steps = accounts_step ∷ balances_step ∷ [] }
      ∷ record { group_id = "pis"; steps = payment_step ∷ [] }
      ∷ [];
}
unfolding build_execution_schedule selected_step_ids default_plan_from_manifest filter elem
    conformance_suite_v.Base.Dict.get conformance_suite_v.Base.Dict.put
schedule_runs = refl

build_execution_schedule-IsSchedule_example :
    IsSchedule manifest (selected_step_ids plan) (build_execution_schedule manifest plan)
build_execution_schedule-IsSchedule_example = build_execution_schedule-IsSchedule manifest plan refl

selected-with_deselection_case :
    (plan' : TestPlan) × (with_deselection ("accounts" ∷ []) plan ≡ ok plan')
    × (selected_step_ids plan'
        ≡ filter (λ i. not (elem i ("accounts" ∷ []))) (selected_step_ids plan))
    × (entry_ids plan'.entries ≡ entry_ids plan.entries)
unfolding filter elem
selected-with_deselection_case = selected-with_deselection ("accounts" ∷ []) plan refl

is_ok-with_deselection_case :
    is_ok (with_deselection ("zzz" ∷ "accounts" ∷ []) plan)
    ≡ all (λ i. elem i (entry_ids plan.entries)) ("zzz" ∷ "accounts" ∷ [])
is_ok-with_deselection_case = is_ok-with_deselection ("zzz" ∷ "accounts" ∷ []) plan

summary_counts_case :
    let s = summary plan in
    (s.selected_steps + s.deselected_steps ≡ s.total_steps)
    × (s.selected_steps ≡ length (selected_step_ids plan))
    × (s.deselected_steps ≡ length (deselected_step_ids plan))
    × (s.mandatory_deselected ≡ length (deselected_mandatory_step_ids plan))
    × (s.mandatory_selected + s.mandatory_deselected
        ≡ count_if (λ (e : TestPlanEntry). e.mandatory) plan.entries)
summary_counts_case = summary_counts plan

is_eligible_by_selection_iff_example : (is_eligible_by_selection plan ≡ true) ↔ (
    (any (λ (e : TestPlanEntry). e.mandatory) plan.entries ≡ true)
    × (deselected_mandatory_step_ids plan ≡ []))
is_eligible_by_selection_iff_example = is_eligible_by_selection_iff plan

default_plan_eligible_case :
    (is_eligible_by_selection (default_plan_from_manifest manifest) ≡ true)
    ↔ (any (λ (s : V1Step). s.mandatory) manifest.steps ≡ true)
default_plan_eligible_case = default_plan_eligible manifest refl
