-- ===== src/RunLaunch/Slot.antt =====
-- The reservation of the run slot, and its return (conformance/api/run_lifecycle.py).
use conformance_suite_v.Base.{
  ◌⊎◌, ap, ℕ, String, ◌≡◌, ◌↔◌, refl, true, false, Option, none, some, List, Result, ok, err, is_ok,
  Option-cases, Bool-cases, inl, inr, arith, eq_iff,
}
use conformance_suite_v.Base.Json.{Json, Fields}
use conformance_suite_v.Base.Dict.Distinct.{passes}
use conformance_suite_v.Base.Dict.{get}
use conformance_suite_v.RunStore.{RunRecord, RunPlanStep, new_record, create_run, conflict}
use conformance_suite_v.RunStore.Creation.{create_run_busy, create_run_idle, create_run-IsValid}
use conformance_suite_v.AuthSession.Invariant as SessionInvariant
use conformance_suite_v.RunStore.Invariant
use conformance_suite_v.RunStore.Invariant.{is_live}
use conformance_suite_v.RunLifecycle.{Launch, World, Environment, execute_run}
use conformance_suite_v.RunLifecycle.Execution.{IsRunning}
use conformance_suite_v.RunLifecycle.Outcome.{execute_run_ends}
use conformance_suite_v.RunLaunch.{
  start_run, lacks_inputs, missing_inputs, store_error, StartError, effective_plan_for_launch,
  selected_planned_steps_snapshot,
}

-- both stores are valid
pub record IsValid (w : World) : Type 0 where
  pub runs : Invariant.IsValid w.runs
  pub sessions : SessionInvariant.IsValid w.sessions

module _ {P : Type 0} (l : Launch P) (compiled : Option (List RunPlanStep))
    (snapshot validation : Option Json) (k : String) (now : ℕ) (w : World) where
  abbrev pub steps : List RunPlanStep
  steps =
      selected_planned_steps_snapshot compiled l.manifest
        (effective_plan_for_launch l.manifest l.plan)

  abbrev result : Result StartError RunRecord × World
  result = start_run l compiled snapshot validation k now w

  start_idle :
      lacks_inputs l.compiled_plan l.runtime_inputs l.runtime_input_base_dir ≡ false
      → w.runs.active_run_id ≡ none
      → (result.0 ≡ ok (new_record k now steps snapshot validation))
        × (result.1.runs ≡ (create_run k now steps snapshot validation w.runs).1)
        × (result.1.sessions ≡ w.sessions)
  unfolding start_run
  start_idle inputs idle =
      rw inputs
        (rw (create_run_idle k now steps snapshot validation w.runs idle).0 (refl, refl, refl))

  start_busy :
      (active : String)
      → lacks_inputs l.compiled_plan l.runtime_inputs l.runtime_input_base_dir ≡ false
      → w.runs.active_run_id ≡ some active
      → (result.0 ≡ err (store_error (conflict active))) × (result.1 ≡ w)
  unfolding start_run
  start_busy active inputs busy =
      rw inputs
        (rw (create_run_busy k now steps snapshot validation w.runs active busy) (refl, refl))

  start_lacking :
      lacks_inputs l.compiled_plan l.runtime_inputs l.runtime_input_base_dir ≡ true
      → (result.0 ≡ err missing_inputs) × (result.1 ≡ w)
  unfolding start_run
  start_lacking lacking = rw lacking (refl, refl)

  pub start-IsRunning :
      IsValid w
      → get w.runs.runs k ≡ none
      → lacks_inputs l.compiled_plan l.runtime_inputs l.runtime_input_base_dir ≡ false
      → w.runs.active_run_id ≡ none
      → IsRunning k result.1
  start-IsRunning v fresh inputs idle =
      let (made, runs, sessions) = start_idle inputs idle in
      record {
        runs = rw runs (create_run-IsValid k now steps snapshot validation w.runs fresh v.runs);
        sessions = rw sessions v.sessions;
        active = rw runs ((create_run_idle k now steps snapshot validation w.runs idle).1);
      }

  accepted :
      is_ok result.0 ≡ true
      → (lacks_inputs l.compiled_plan l.runtime_inputs l.runtime_input_base_dir ≡ false)
        × (w.runs.active_run_id ≡ none)
  accepted h =
      elim (Bool-cases (lacks_inputs l.compiled_plan l.runtime_inputs l.runtime_input_base_dir)) [
        | inl lacking ↦ absurd (cc (h, ap is_ok (start_lacking lacking).0))
        | inr inputs ↦ elim (Option-cases w.runs.active_run_id) [
          | inl idle ↦ (inputs, idle)
          | inr (a, busy) ↦ absurd (cc (h, ap is_ok (start_busy a inputs busy).0))
        ]
      ]

-- A launch brings what its compiled plan needs: it has no compiled plan, or it has the inputs of the
-- plan and their directory.
abbrev pub HasInputs : {P : Type 0} → Option P → Option Fields → Option String → Type 0
HasInputs compiled_plan inputs dir =
    (compiled_plan ≡ none)
    ⊎ ((values : Fields) × (base : String) × (inputs ≡ some values) × (dir ≡ some base))

-- It has a compiled plan, and one of the two is missing.
abbrev pub LacksInputs : {P : Type 0} → Option P → Option Fields → Option String → Type 0
LacksInputs {P} compiled_plan inputs dir =
    (p : P) × (compiled_plan ≡ some p) × ((inputs ≡ none) ⊎ (dir ≡ none))

lacks_inputs-HasInputs :
    {P : Type 0} (compiled_plan : Option P) (inputs : Option Fields) (dir : Option String)
    → (lacks_inputs compiled_plan inputs dir ≡ false) ↔ HasInputs compiled_plan inputs dir
lacks_inputs-HasInputs none inputs dir = (λ h. inl refl, λ h. refl)
lacks_inputs-HasInputs (some p) (some values) (some base) =
    (λ h. inr (values, base, refl, refl), λ h. refl)
lacks_inputs-HasInputs (some p) none dir =
    (λ h. absurd (cc), λ h. absurd (elim h [ inl e ↦ cc | inr (v, b, e, f) ↦ cc ]))
lacks_inputs-HasInputs (some p) (some values) none =
    (λ h. absurd (cc), λ h. absurd (elim h [ inl e ↦ cc | inr (v, b, e, f) ↦ cc ]))

lacks_inputs-LacksInputs :
    {P : Type 0} (compiled_plan : Option P) (inputs : Option Fields) (dir : Option String)
    → lacks_inputs compiled_plan inputs dir ≡ true
    → LacksInputs compiled_plan inputs dir
lacks_inputs-LacksInputs none inputs dir h = absurd (cc)
lacks_inputs-LacksInputs (some p) (some values) (some base) h = absurd (cc)
lacks_inputs-LacksInputs (some p) none dir h = (p, refl, inl refl)
lacks_inputs-LacksInputs (some p) (some values) none h = (p, refl, inr refl)

-- no stored run is pending or running
abbrev pub AllOver : World → Type 0
AllOver w = (j : String) → passes is_live (get w.runs.runs j) ≡ false

idle_over : (w : World) → IsValid w → w.runs.active_run_id ≡ none → AllOver w
idle_over w v idle j = ground (arith, v.runs.live_iff j)

over_idle : (w : World) → IsValid w → AllOver w → w.runs.active_run_id ≡ none
over_idle w v over = elim (Option-cases w.runs.active_run_id) [
  | inl idle ↦ idle
  | inr (a, busy) ↦ absurd (ground (arith, v.runs.live_iff a, over a, eq_iff a a))
]

busy_live :
    (w : World) (a : String)
    → IsValid w
    → w.runs.active_run_id ≡ some a
    → passes is_live (get w.runs.runs a) ≡ true
busy_live w a v busy = ground (arith, v.runs.live_iff a, eq_iff a a)

module _ {P : Type 0} (l : Launch P) (compiled : Option (List RunPlanStep))
    (snapshot validation : Option Json) (k : String) (now : ℕ) (w : World) where
  -- what a launch comes to
  abbrev pub IsLaunchOutcome : Result StartError RunRecord × World → Type 0
  IsLaunchOutcome (r, after) =
      ((r ≡ err missing_inputs)
        × LacksInputs l.compiled_plan l.runtime_inputs l.runtime_input_base_dir
        × (after ≡ w))
      ⊎ (((a : String) × (r ≡ err (store_error (conflict a)))
            × (passes is_live (get w.runs.runs a) ≡ true)
            × (after ≡ w))
          ⊎ ((r
                ≡ ok (
                    new_record k now (steps l compiled snapshot validation k now w) snapshot
                      validation))
              × IsRunning k after))

  launch_outcome :
      IsValid w
      → get w.runs.runs k ≡ none
      → IsLaunchOutcome (start_run l compiled snapshot validation k now w)
  launch_outcome v fresh =
      elim (Bool-cases (lacks_inputs l.compiled_plan l.runtime_inputs l.runtime_input_base_dir)) [
        | inl lacking ↦
            let (r, same) = start_lacking l compiled snapshot validation k now w lacking in
            inl (r, lacks_inputs-LacksInputs _ _ _ lacking, same)
        | inr inputs ↦ elim (Option-cases w.runs.active_run_id) [
          | inl idle ↦ inr (
              inr (
                (start_idle l compiled snapshot validation k now w inputs idle).0,
                start-IsRunning l compiled snapshot validation k now w v fresh inputs idle,
              ))
          | inr (a, busy) ↦
              let (r, same) = start_busy l compiled snapshot validation k now w a inputs busy in
              inr (inl (a, r, busy_live w a v busy, same))
        ]
      ]

-- From valid stores and under a fresh identifier, a launch is accepted exactly if it has no compiled
-- plan or has the plan's inputs and their directory, and no stored run is pending or running. If it is
-- refused, then it lacks one of the two for its compiled plan, or another run, which the error names,
-- is pending or running, and nothing changes; if it is accepted, it returns a pending record with the
-- announced steps, and its run holds the slot.
pub start_run_iff :
    {P : Type 0} (l : Launch P) (compiled : Option (List RunPlanStep))
    (snapshot validation : Option Json) (k : String) (now : ℕ) (w : World)
    → IsValid w
    → get w.runs.runs k ≡ none
    → ((is_ok (start_run l compiled snapshot validation k now w).0 ≡ true)
        ↔ (HasInputs l.compiled_plan l.runtime_inputs l.runtime_input_base_dir × AllOver w))
      × IsLaunchOutcome l compiled snapshot validation k now w
          (start_run l compiled snapshot validation k now w)
start_run_iff l compiled snapshot validation k now w v fresh = (
  (
    λ h.
        let (inputs, idle) = accepted l compiled snapshot validation k now w h in
        ((lacks_inputs-HasInputs _ _ _).0 inputs, idle_over w v idle),
    λ h.
        ap is_ok
          (start_idle l compiled snapshot validation k now w ((lacks_inputs-HasInputs _ _ _).1 h.0)
            (over_idle w v h.1)).0,
  ),
  launch_outcome l compiled snapshot validation k now w v fresh,
)

-- When the execution of a run has come to its end, whatever happened in it, the next launch that has
-- its inputs is accepted under a fresh identifier, and its run holds the slot.
pub start_run-execute_run :
    {P : Type 0} (env : Environment P) (before l : Launch P) (compiled : Option (List RunPlanStep))
    (snapshot validation : Option Json) (j k : String) (started ended now : ℕ) (w : World)
    → IsRunning j w
    → get (execute_run env before j started ended w).runs.runs k ≡ none
    → lacks_inputs l.compiled_plan l.runtime_inputs l.runtime_input_base_dir ≡ false
    → (is_ok
          (start_run l compiled snapshot validation k now
            (execute_run env before j started ended w)).0
        ≡ true)
      × IsRunning k
          (start_run l compiled snapshot validation k now
            (execute_run env before j started ended w)).1
start_run-execute_run env before l compiled snapshot validation j k started ended now w running
      fresh inputs =
    let (over, idle, gone, runs, sessions) =
      execute_run_ends env before j started ended w running in
    let w' : World = execute_run env before j started ended w in
    (
      ap is_ok (start_idle l compiled snapshot validation k now w' inputs idle).0,
      start-IsRunning l compiled snapshot validation k now w'
          (record { runs = runs; sessions = sessions }) fresh inputs idle,
    )
