-- ===== src/TestPlan.antt =====
-- conformance/test_plan.py: which steps of a manifest a run executes; and what it reads of
-- conformance/manifest.py, where a step of either kind has these fields.
pub mod Selection
use conformance_suite_v.Base.{
  ℕ, ◌-◌, String, Bool, true, false, not, ◌&&◌, ◌||◌, List, [], ◌∷◌, map, Result, ok, err, str_eq,
  if◌then◌else◌, length, filter, all, count_if, elem,
}
use conformance_suite_v.Base.Text.{sorted_set}

pub data StepPhase : Type 0 where
  setup execution : StepPhase

pub data StepKind : Type 0 where
  http psu_authorization : StepKind

pub record V1Step : Type 0 where
  pub id : String
  pub name : String
  pub kind : StepKind
  pub phase : StepPhase
  pub group : String
  pub mandatory : Bool
  pub optional : Bool

pub data CertificationCoverage : Type 0 where
  complete partial : CertificationCoverage

pub record Manifest : Type 0 where
  pub schema_version : String
  pub certification_coverage : CertificationCoverage
  pub steps : List V1Step

pub record TestPlanEntry : Type 0 where
  pub step_id : String
  pub mandatory : Bool
  pub optional : Bool
  pub selected : Bool

pub record TestPlan : Type 0 where
  pub entries : List TestPlanEntry

-- the `ValueError` of `with_deselection`, with the identifiers that it names
pub data PlanError : Type 0 where
  unknown_steps : List String → PlanError

abbrev pub default_entry : V1Step → TestPlanEntry
default_entry step = record {
  step_id = step.id;
  mandatory = step.mandatory;
  optional = step.optional;
  selected = step.mandatory || not step.optional;
}

unfoldable pub default_plan_from_manifest : Manifest → TestPlan
default_plan_from_manifest m =
    if str_eq m.schema_version "v1"
    then record { entries = map default_entry m.steps }
    else record { entries = [] }

abbrev pub entry_ids : List TestPlanEntry → List String
entry_ids = map (λ e. e.step_id)

abbrev pub deselect_entry : List String → TestPlanEntry → TestPlanEntry
deselect_entry step_ids e = record e {
  selected = if elem e.step_id step_ids then false else e.selected;
}

abbrev pub unknown_ids : List String → TestPlan → List String
unknown_ids step_ids plan = filter (λ i. not (elem i (entry_ids plan.entries))) step_ids

abbrev deselect_known : List String → List String → TestPlan → Result PlanError TestPlan
deselect_known [] step_ids plan =
    ok (record { entries = map (deselect_entry step_ids) plan.entries })
deselect_known (i ∷ more) step_ids plan = err (unknown_steps (sorted_set (i ∷ more)))

unfoldable pub with_deselection : List String → TestPlan → Result PlanError TestPlan
with_deselection step_ids plan = deselect_known (unknown_ids step_ids plan) step_ids plan

-- `[entry.step_id for entry in self.entries if test(entry)]`
abbrev pub ids_where : (TestPlanEntry → Bool) → TestPlan → List String
ids_where p plan = entry_ids (filter p plan.entries)

unfoldable pub selected_step_ids : TestPlan → List String
selected_step_ids = ids_where (λ e. e.selected)

unfoldable pub deselected_step_ids : TestPlan → List String
deselected_step_ids = ids_where (λ e. not e.selected)

unfoldable pub deselected_mandatory_step_ids : TestPlan → List String
deselected_mandatory_step_ids = ids_where (λ e. e.mandatory && not e.selected)

abbrev all_selected : List TestPlanEntry → Bool
all_selected [] = false
all_selected (e ∷ es) = all (λ e. e.selected) (e ∷ es)

unfoldable pub is_eligible_by_selection : TestPlan → Bool
is_eligible_by_selection plan = all_selected (filter (λ e. e.mandatory) plan.entries)

pub record PlanSummary : Type 0 where
  pub total_steps : ℕ
  pub selected_steps : ℕ
  pub deselected_steps : ℕ
  pub mandatory_selected : ℕ
  pub mandatory_deselected : ℕ

unfoldable pub summary : TestPlan → PlanSummary
summary plan =
    let total = length plan.entries in
    let selected = count_if (λ (e : TestPlanEntry). e.selected) plan.entries in
    record {
      total_steps = total;
      selected_steps = selected;
      deselected_steps = total - selected;
      mandatory_selected = count_if (λ (e : TestPlanEntry). e.mandatory && e.selected) plan.entries;
      mandatory_deselected =
          count_if (λ (e : TestPlanEntry). e.mandatory && not e.selected) plan.entries;
    }
