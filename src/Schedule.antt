-- ===== src/Schedule.antt =====
-- conformance/execution_schedule.py: the selected steps of a v1 manifest, split into the setup
-- steps and the groups of execution steps.
pub mod FirstSeen
pub mod Groups
use conformance_suite_v.Base.{
  ℕ, String, Bool, true, false, not, ◌&&◌, Option, none, some, List, [], ◌∷◌, ◌++◌, map, str_eq,
  if◌then◌else◌, elem,
}
use conformance_suite_v.Base.Dict.{Dict, get, put, has}
use conformance_suite_v.TestPlan.{
  StepPhase, setup, execution, V1Step, Manifest, TestPlan, selected_step_ids,
}

pub record ExecutionGroup : Type 0 where
  pub group_id : String
  pub steps : List V1Step

pub record ExecutionSchedule : Type 0 where
  pub setup_steps : List V1Step
  pub execution_groups : List ExecutionGroup

-- the variables of the loop
pub record Loop : Type 0 where
  pub setup_steps : List V1Step
  pub grouped_steps : Dict (List V1Step)
  pub group_order : List String

abbrev pub start : Loop
start = record { setup_steps = []; grouped_steps = []; group_order = [] }

-- the steps of a group that has some, and the empty list that is put there for a new one
abbrev pub or_empty : Option (List V1Step) → List V1Step
or_empty none = []
or_empty (some l) = l

-- a step that is selected
abbrev pub place : V1Step → StepPhase → Loop → Loop
place step setup l = record l { setup_steps = l.setup_steps ++ step ∷ [] }
place step execution l = record l {
  grouped_steps =
      put l.grouped_steps step.group (or_empty (get l.grouped_steps step.group) ++ step ∷ []);
  group_order =
      if has l.grouped_steps step.group then l.group_order else l.group_order ++ step.group ∷ [];
}

abbrev pub visit : List String → V1Step → Loop → Loop
visit selected step l = if elem step.id selected then place step step.phase l else l

unfoldable pub loop : List String → List V1Step → Loop → Loop
loop selected [] l = l
loop selected (step ∷ steps) l = loop selected steps (visit selected step l)

-- `grouped_steps[group_id]`, for the identifiers that the loop put there
abbrev pub group_of : Dict (List V1Step) → String → ExecutionGroup
group_of grouped g = record { group_id = g; steps = or_empty (get grouped g) }

abbrev pub finish : Loop → ExecutionSchedule
finish l = record {
  setup_steps = l.setup_steps;
  execution_groups = map (group_of l.grouped_steps) l.group_order;
}

unfoldable pub build_execution_schedule : Manifest → TestPlan → ExecutionSchedule
unfolding loop
build_execution_schedule m plan =
    if str_eq m.schema_version "v1"
    then finish (loop (selected_step_ids plan) m.steps start)
    else record { setup_steps = []; execution_groups = [] }
