-- ===== src/Tests/Reports.antt =====
-- Reports of small runs (conformance/results.py).
use conformance_suite_v.Base.{
  ◌+◌, ◌≡◌, refl, ◌↔◌, ◌≢◌, String, Bool, true, false, not, ◌||◌, none, some, List, [], ◌∷◌, ◌++◌,
  all, any, elem, filter, count_if,
}
use conformance_suite_v.TestPlan.{complete, TestPlan, deselected_mandatory_step_ids}
use conformance_suite_v.Report.{
  CheckStatus, passed, failed, warn, skipped, is_success, StepResult, ApprovedReleasePolicy,
  build_smoke_check_result, summary_of, build_eligibility, eligibility_of, eligibility_reasons,
  aggregate_trace_status, mandatory_deselected_reason, mandatory_failed_reason, no_policy_reason,
}
use conformance_suite_v.Report.Status.{worse, aggregate-append, build_smoke_check_result-summary}
use conformance_suite_v.Report.Certification.{
  is_approved, eligible_iff, StartsWith, deselected_first,
}

abbrev step_of : String → CheckStatus → Bool → StepResult
step_of name status mandatory = record {
  name = name;
  status = status;
  message = "";
  url = none;
  status_code = none;
  details = [];
  mandatory = mandatory;
}

abbrev good_run : List StepResult
good_run =
    step_of "token" passed true ∷ step_of "accounts" warn true ∷ step_of "extra" failed false ∷ []

abbrev policy : ApprovedReleasePolicy
policy = record { schema_version = "v1"; approved_tool_versions = "2.0" ∷ "2.1" ∷ [] }

run_eligible : (build_eligibility good_run [] (some policy) "2.1" complete []).eligible ≡ true
unfolding build_eligibility eligibility_reasons filter count_if elem
run_eligible = refl

run_reasons :
    (build_eligibility
      (step_of "token" failed true ∷ [])
      ("balances" ∷ [])
      none
      "2.1"
      complete
      []).reasons
    ≡ mandatory_deselected_reason ∷ mandatory_failed_reason 1 ∷ no_policy_reason ∷ []
unfolding build_eligibility eligibility_reasons filter count_if elem
run_reasons = refl

abbrev nothing : List String
nothing = []

eligible_iff_example :
    ((build_eligibility good_run nothing (some policy) "2.1" complete nothing).eligible ≡ true) ↔ (
      (any (λ (s : StepResult). s.mandatory) good_run ≡ true)
      × (all (λ (s : StepResult). not s.mandatory || is_success s.status) good_run ≡ true)
      × (nothing ≡ [])
      × (complete ≡ complete)
      × (nothing ≡ [])
      × (is_approved (some policy) "2.1" ≡ true))
eligible_iff_example = eligible_iff good_run nothing (some policy) "2.1" complete nothing

abbrev plan : TestPlan
plan = record {
  entries =
      record { step_id = "token"; mandatory = true; optional = false; selected = true }
      ∷ record { step_id = "accounts"; mandatory = true; optional = false; selected = false }
      ∷ [];
}

plan_deselects : deselected_mandatory_step_ids plan ≢ []
unfolding deselected_mandatory_step_ids filter
plan_deselects h = cc

deselected_first_case :
    let e =
      eligibility_of "2.1"
        (build_smoke_check_result good_run 1 2 (some plan) (some policy) complete []) in
    (e.eligible ≡ false) × StartsWith mandatory_deselected_reason e.reasons
deselected_first_case =
    deselected_first good_run 1 2 plan (some policy) "2.1" complete [] plan_deselects

build_smoke_check_result-summary_case :
    let r = build_smoke_check_result good_run 1 2 (some plan) (some policy) complete [] in
    let s = summary_of r in
    ((r.status ≡ passed) ↔ ((s.failed ≡ 0) × (s.skipped ≡ 0)))
    × (s.passed + s.failed + s.warn + s.skipped ≡ s.total)
build_smoke_check_result-summary_case =
    build_smoke_check_result-summary good_run 1 2 (some plan) (some policy) complete []

aggregate-append_case :
    aggregate_trace_status ((passed ∷ []) ++ warn ∷ skipped ∷ [])
    ≡ worse (aggregate_trace_status (passed ∷ [])) (aggregate_trace_status (warn ∷ skipped ∷ []))
aggregate-append_case = aggregate-append (passed ∷ []) (warn ∷ skipped ∷ [])
