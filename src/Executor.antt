-- ===== src/Executor.antt =====
-- conformance/executor.py: how a v1 manifest is run. The setup steps run one after the other, then each
-- execution group runs in a thread of its own from the context that the setup left, and the results
-- are put into the manifest's order. What one HTTP or browser step does, and the legacy v0 run, are
-- arguments; so are the order in which the threads get their turns, and the clock.
pub mod Workers
pub mod Turns
pub mod Order
pub mod Answers
pub mod Eligible
pub mod Independent
use conformance_suite_v.Base.{
  ℕ, zero, suc, String, Bool, true, false, not, Option, none, some, List, [], ◌∷◌, ◌++◌, map,
  Result, ok, err, leb, str_eq, if◌then◌else◌, length, filter, all,
}
use conformance_suite_v.Base.Json.{
  Json, null, bool, num, str, obj, Number, integer, Fields, end, field,
}
use conformance_suite_v.Base.Dict.{Dict, get, put}
use conformance_suite_v.BrowserLogger.{Event}
use conformance_suite_v.TestPlan.{
  StepKind, http, psu_authorization, V1Step, Manifest, TestPlanEntry, TestPlan,
  default_plan_from_manifest,
}
use conformance_suite_v.Schedule.{ExecutionGroup, build_execution_schedule}
use conformance_suite_v.Report.{
  CheckStatus, StepResult, SmokeCheckResult, ApprovedReleasePolicy, build_smoke_check_result,
  summary_of,
}

-- what a step gives, or the message of the exception that it raises. `C` is the context that a step
-- passes to the next one, and `S` all that the threads share: the log, the sessions and the bank.
abbrev pub Performer : Type 0 → Type 0 → Type 0
Performer C S = V1Step → C → S → Result String (StepResult × C) × S

pub record Performers (C S : Type 0) : Type 0 where
  pub psu_step : Performer C S
  pub http_step : Performer C S
  pub run_v0 : Manifest → S → Result String SmokeCheckResult × S
  pub emit : Event → S → S

abbrev performer : {C S : Type 0} → Performers C S → StepKind → Performer C S
performer p psu_authorization = p.psu_step
performer p http = p.http_step

-- `if manifest_step.mandatory: step_result = replace(step_result, mandatory=True)`
abbrev pub mark_mandatory : V1Step → StepResult → StepResult
mark_mandatory step r = if step.mandatory then record r { mandatory = true } else r

abbrev marked :
    {C S : Type 0}
    → V1Step
    → Result String (StepResult × C) × S
    → Result String (StepResult × C) × S
marked step (ok (r, c), s) = (ok (mark_mandatory step r, c), s)
marked step (err raised, s) = (err raised, s)

-- `_execute_v1_manifest_step`
unfoldable pub execute_manifest_step : {C S : Type 0} → Performers C S → Performer C S
execute_manifest_step p step c s = marked step (performer p step.kind step c s)

abbrev cons_result :
    {C S : Type 0}
    → StepResult
    → Result String (List StepResult × C) × S
    → Result String (List StepResult × C) × S
cons_result r (err raised, s) = (err raised, s)
cons_result r (ok (rs, c), s) = (ok (r ∷ rs, c), s)

abbrev and_then :
    {C S : Type 0}
    → (C → S → Result String (List StepResult × C) × S)
    → Result String (StepResult × C) × S
    → Result String (List StepResult × C) × S
and_then rest (err raised, s) = (err raised, s)
and_then rest (ok (r, c), s) = cons_result r (rest c s)

-- `_execute_v1_step_sequence`
unfoldable pub execute_step_sequence :
    {C S : Type 0} → Performers C S → List V1Step → C → S → Result String (List StepResult × C) × S
execute_step_sequence p [] c s = (ok ([], c), s)
execute_step_sequence p (step ∷ steps) c s =
    and_then (execute_step_sequence p steps) (execute_manifest_step p step c s)

-- the thread of one group: `_execute_v1_group` after some of its steps
pub record Worker (C : Type 0) : Type 0 where
  pub todo : List V1Step
  pub context : C
  pub done : List StepResult
  pub raised : Option String

abbrev pub start_worker : {C : Type 0} → C → ExecutionGroup → Worker C
start_worker c g = record { todo = g.steps; context = c; done = []; raised = none }

-- a step that raises ends the thread
abbrev pub note :
    {C S : Type 0} → Worker C → List V1Step → Result String (StepResult × C) × S → Worker C × S
note w rest (ok (r, c), s) = (record w { todo = rest; context = c; done = w.done ++ r ∷ [] }, s)
note w rest (err error, s) = (record w { todo = []; raised = some error }, s)

-- the next step of a thread, if it has one
abbrev advance : {C S : Type 0} → Performers C S → List V1Step → Worker C → S → Worker C × S
advance p [] w s = (w, s)
advance p (step ∷ rest) w s = note w rest (execute_manifest_step p step w.context s)

-- the thread at this place gets a turn
unfoldable pub turn :
    {C S : Type 0} → Performers C S → ℕ → List (Worker C) → S → List (Worker C) × S
turn p n [] s = ([], s)
turn p zero (w ∷ ws) s = let (w', s') = advance p w.todo w s in (w' ∷ ws, s')
turn p (suc n) (w ∷ ws) s = let (ws', s') = turn p n ws s in (w ∷ ws', s')

unfoldable pub turns :
    {C S : Type 0} → Performers C S → List ℕ → List (Worker C) → S → List (Worker C) × S
turns p [] ws s = (ws, s)
turns p (n ∷ ns) ws s = let (ws', s') = turn p n ws s in turns p ns ws' s'

-- `future.result()`
abbrev pub result_of : {C : Type 0} → Worker C → Result String (List StepResult)
result_of w = elim w.raised [ none ↦ ok w.done | some error ↦ err error ]

abbrev extend :
    Result String (List StepResult)
    → Result String (List StepResult)
    → Result String (List StepResult)
extend (err error) later = err error
extend (ok rs) (err error) = err error
extend (ok rs) (ok more) = ok (rs ++ more)

-- the loop over `ordered_futures`
unfoldable pub collect : {C : Type 0} → List (Worker C) → Result String (List StepResult)
collect [] = ok []
collect (w ∷ ws) = extend (result_of w) (collect ws)

-- `{step.id: index for index, step in enumerate(manifest.steps)}`
unfoldable pub order_from : ℕ → List V1Step → Dict ℕ → Dict ℕ
order_from n [] d = d
order_from n (step ∷ steps) d = order_from (suc n) steps (put d step.id n)

unfoldable pub manifest_order : List V1Step → String → ℕ
manifest_order steps name =
    let d = order_from 0 steps [] in elim (get d name) [ none ↦ length d | some n ↦ n ]

-- `completed_steps.sort(key=…)`, which is stable
unfoldable pub insert_result : (String → ℕ) → StepResult → List StepResult → List StepResult
insert_result key r [] = r ∷ []
insert_result key r (q ∷ qs) =
    let rest = insert_result key r qs in
    if leb (key r.name) (key q.name) then r ∷ q ∷ qs else q ∷ rest

unfoldable pub sort_results : (String → ℕ) → List StepResult → List StepResult
unfolding insert_result
sort_results key [] = []
sort_results key (r ∷ rs) = insert_result key r (sort_results key rs)

abbrev sorted : List V1Step → Result String (List StepResult) → Result String (List StepResult)
sorted steps (ok rs) = ok (sort_results (manifest_order steps) rs)
sorted steps (err error) = err error

-- `_execute_v1_execution_groups_concurrently`, where the threads get these turns
unfoldable pub execute_groups_concurrently :
    {C S : Type 0}
    → Performers C S
    → List ℕ
    → List ExecutionGroup
    → C
    → Manifest
    → S
    → Result String (List StepResult) × S
execute_groups_concurrently p ns groups c m s =
    let (ws, s') = turns p ns (map (start_worker c) groups) s in (sorted m.steps (collect ws), s')

abbrev event : String → Option String → Option Fields → Event
event kind step_id payload = record { event_type = kind; step_id = step_id; payload = payload }

-- the events of the steps that the plan leaves out
unfoldable pub emit_deselected : {C S : Type 0} → Performers C S → List TestPlanEntry → S → S
emit_deselected p [] s = s
emit_deselected p (e ∷ es) s = emit_deselected p es (
    if e.selected
    then s
    else p.emit
        (event "step-deselected" (some e.step_id) (some (field "mandatory" (bool e.mandatory) end)))
        s)

-- the results of the setup steps and of the groups
abbrev after_setup :
    {C S : Type 0}
    → Performers C S
    → List ℕ
    → List ExecutionGroup
    → Manifest
    → Result String (List StepResult × C) × S
    → Result String (List StepResult) × S
after_setup p ns groups m (err error, s) = (err error, s)
after_setup p ns groups m (ok (rs, c), s) =
    let (more, s') = execute_groups_concurrently p ns groups c m s in (extend (ok rs) more, s')

unfoldable pub manifest_steps :
    {C S : Type 0}
    → Performers C S
    → List ℕ
    → C
    → Manifest
    → TestPlan
    → S
    → Result String (List StepResult) × S
manifest_steps p ns c m plan s =
    let schedule = build_execution_schedule m plan in
    after_setup p ns schedule.execution_groups m
      (execute_step_sequence p schedule.setup_steps c (emit_deselected p plan.entries s))

abbrev built :
    {S : Type 0}
    → ℕ
    → ℕ
    → TestPlan
    → Option ApprovedReleasePolicy
    → Manifest
    → Result String (List StepResult) × S
    → Result String SmokeCheckResult × S
built started_at now plan policy m (err error, s) = (err error, s)
built started_at now plan policy m (ok steps, s) = (
  ok (build_smoke_check_result steps started_at now (some plan) policy m.certification_coverage []),
  s,
)

-- `_run_manifest_v1`, with no compiled plan; `c` is the empty context with the runtime configuration
unfoldable pub run_manifest_v1 :
    {C S : Type 0}
    → Performers C S
    → List ℕ
    → C
    → ℕ
    → ℕ
    → Option ApprovedReleasePolicy
    → Manifest
    → TestPlan
    → S
    → Result String SmokeCheckResult × S
unfolding manifest_steps
run_manifest_v1 p ns c started_at now policy m plan s =
    built started_at now plan policy m (manifest_steps p ns c m plan s)
