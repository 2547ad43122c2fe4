-- ===== src/Report.antt =====
-- conformance/results.py: the outcome of a run, and whether it may be submitted for certification;
-- and the policy of conformance/approved_releases.py. A report is the record that
-- `to_json_object` prints. The version of the tool is an argument.
pub mod Status
pub mod Certification
pub mod Development
use conformance_suite_v.Base.{
  ℕ, ◌+◌, String, Bool, true, false, not, ◌&&◌, ◌||◌, Option, none, some, List, [], ◌∷◌, ◌++◌, map,
  ltb, ◌==◌, if◌then◌else◌, length, filter, all, count_if, elem,
}
use conformance_suite_v.Base.Json.{Json}
use conformance_suite_v.Base.Dict.{Dict}
use conformance_suite_v.TestPlan.{
  CertificationCoverage, complete, partial, TestPlan, PlanSummary, summary,
  deselected_mandatory_step_ids,
}

pub data CheckStatus : Type 0 where
  passed failed warn skipped : CheckStatus

-- `==` on statuses
abbrev pub is_status : CheckStatus → CheckStatus → Bool
is_status passed passed = true
is_status failed failed = true
is_status warn warn = true
is_status skipped skipped = true
is_status _ _ = false

pub record StepResult : Type 0 where
  pub name : String
  pub status : CheckStatus
  pub message : String
  pub url : Option String
  pub status_code : Option ℕ
  pub details : Dict Json
  pub mandatory : Bool

pub record ApprovedReleasePolicy : Type 0 where
  pub schema_version : String
  pub approved_tool_versions : List String

abbrev pub is_tool_version_approved : ApprovedReleasePolicy → String → Bool
is_tool_version_approved policy tool_version = elem tool_version policy.approved_tool_versions

pub record SmokeCheckResult : Type 0 where
  pub status : CheckStatus
  pub started_at : ℕ
  pub finished_at : ℕ
  pub steps : List StepResult
  pub plan_summary : Option PlanSummary
  pub deselected_mandatory : List String
  pub approved_release_policy : Option ApprovedReleasePolicy
  pub certification_coverage : CertificationCoverage
  pub non_certifying_reasons : List String

-- `status in {"passed", "warn"}`
abbrev pub is_success : CheckStatus → Bool
is_success status = is_status status passed || is_status status warn

abbrev pub plan_summary_of : Option TestPlan → Option PlanSummary
plan_summary_of none = none
plan_summary_of (some plan) = some (summary plan)

abbrev pub deselected_of : Option TestPlan → List String
deselected_of none = []
deselected_of (some plan) = deselected_mandatory_step_ids plan

-- `now` is what `datetime.now(UTC)` returns
unfoldable pub build_smoke_check_result :
    List StepResult
    → ℕ
    → ℕ
    → Option TestPlan
    → Option ApprovedReleasePolicy
    → CertificationCoverage
    → List String
    → SmokeCheckResult
build_smoke_check_result steps started_at now plan policy coverage reasons = record {
  status = if all (λ s. is_success s.status) steps then passed else failed;
  started_at = started_at;
  finished_at = now;
  steps = steps;
  plan_summary = plan_summary_of plan;
  deselected_mandatory = deselected_of plan;
  approved_release_policy = policy;
  certification_coverage = coverage;
  non_certifying_reasons = reasons;
}

-- `sum(1 for step in steps if step.status == status)`
abbrev pub count_status : CheckStatus → List StepResult → ℕ
count_status status steps = count_if (λ (s : StepResult). is_status s.status status) steps

pub record Summary : Type 0 where
  pub total : ℕ
  pub passed : ℕ
  pub failed : ℕ
  pub warn : ℕ
  pub skipped : ℕ

unfoldable pub summary_of : SmokeCheckResult → Summary
summary_of r = record {
  total = length r.steps;
  passed = count_status CheckStatus.passed r.steps;
  failed = count_status CheckStatus.failed r.steps;
  warn = count_status CheckStatus.warn r.steps;
  skipped = count_status CheckStatus.skipped r.steps;
}

-- the texts that say why a run cannot certify, with the values that they contain
pub data Reason : Type 0 where
  mandatory_deselected_reason : Reason
  mandatory_failed_reason : ℕ → Reason
  mandatory_skipped_reason : ℕ → Reason
  no_mandatory_reason : Reason
  partial_coverage_reason : Reason
  plan_reason : String → Reason
  unapproved_version_reason : String → Reason
  no_policy_reason : Reason

pub record ApprovedRelease : Type 0 where
  pub checked : Bool
  pub approved : Bool
  pub tool_version : String
  pub policy_schema_version : Option String

abbrev pub build_approved_release_eligibility :
    Option ApprovedReleasePolicy → String → ApprovedRelease
build_approved_release_eligibility none tool_version = record {
  checked = false;
  approved = false;
  tool_version = tool_version;
  policy_schema_version = none;
}
build_approved_release_eligibility (some policy) tool_version = record {
  checked = true;
  approved = is_tool_version_approved policy tool_version;
  tool_version = tool_version;
  policy_schema_version = some policy.schema_version;
}

-- `certificationEligibility`; the primary reason, when there is one, is the first of the reasons
pub record Eligibility : Type 0 where
  pub eligible : Bool
  pub mandatory_total : ℕ
  pub mandatory_passed : ℕ
  pub mandatory_failed : ℕ
  pub mandatory_warn : ℕ
  pub mandatory_skipped : ℕ
  pub mandatory_deselected : ℕ
  pub mandatory_deselected_step_ids : List String
  pub certification_coverage : CertificationCoverage
  pub approved_release : ApprovedRelease
  pub reasons : List Reason

-- a reason that is appended under a condition
abbrev pub when : Bool → Reason → List Reason
when true reason = reason ∷ []
when false reason = []

abbrev pub is_complete : CertificationCoverage → Bool
is_complete complete = true
is_complete partial = false

abbrev pub policy_reasons : Option ApprovedReleasePolicy → String → List Reason
policy_reasons none tool_version = no_policy_reason ∷ []
policy_reasons (some policy) tool_version =
    when (not (is_tool_version_approved policy tool_version))
      (unapproved_version_reason tool_version)

-- the texts of `reasons`, in their order
unfoldable pub eligibility_reasons :
    List StepResult
    → List String
    → Option ApprovedReleasePolicy
    → String
    → CertificationCoverage
    → List String
    → List Reason
eligibility_reasons mandatory_steps deselected policy tool_version coverage plan_reasons =
    let failed_count = count_status failed mandatory_steps in
    let skipped_count = count_status skipped mandatory_steps in
    when (ltb 0 (length deselected)) mandatory_deselected_reason
    ++ when (ltb 0 failed_count) (mandatory_failed_reason failed_count)
    ++ when (ltb 0 skipped_count) (mandatory_skipped_reason skipped_count)
    ++ when (length mandatory_steps + length deselected == 0) no_mandatory_reason
    ++ when (not (is_complete coverage)) partial_coverage_reason
    ++ map plan_reason plan_reasons
    ++ policy_reasons policy tool_version

abbrev pub is_empty {ℓ} : {A : Type ℓ} → List A → Bool
is_empty [] = true
is_empty (_ ∷ _) = false

unfoldable pub build_eligibility :
    List StepResult
    → List String
    → Option ApprovedReleasePolicy
    → String
    → CertificationCoverage
    → List String
    → Eligibility
build_eligibility steps deselected policy tool_version coverage plan_reasons =
    let mandatory_steps = filter (λ (s : StepResult). s.mandatory) steps in
    let reasons =
      eligibility_reasons mandatory_steps deselected policy tool_version coverage plan_reasons in
    record {
      eligible = is_empty reasons;
      mandatory_total = length mandatory_steps + length deselected;
      mandatory_passed = count_status passed mandatory_steps;
      mandatory_failed = count_status failed mandatory_steps;
      mandatory_warn = count_status warn mandatory_steps;
      mandatory_skipped = count_status skipped mandatory_steps;
      mandatory_deselected = length deselected;
      mandatory_deselected_step_ids = deselected;
      certification_coverage = coverage;
      approved_release = build_approved_release_eligibility policy tool_version;
      reasons = reasons;
    }

-- the block that `to_json_object` puts into the report
abbrev pub eligibility_of : String → SmokeCheckResult → Eligibility
eligibility_of tool_version r =
    build_eligibility r.steps r.deselected_mandatory r.approved_release_policy tool_version
      r.certification_coverage r.non_certifying_reasons

abbrev pub has_status : CheckStatus → List CheckStatus → Bool
has_status status [] = false
has_status status (s ∷ ss) = is_status s status || has_status status ss

unfoldable pub aggregate_trace_status : List CheckStatus → CheckStatus
aggregate_trace_status statuses =
    if has_status failed statuses
    then failed
    else if has_status warn statuses
    then warn
    else if has_status passed statuses
    then passed
    else skipped
