-- ===== src/RunStore/History.antt =====
-- Histories of the run store. `_execute_run` of conformance/api/run_lifecycle.py runs in one
-- thread for each run, which marks its run as running, and then once as completed or as failed;
-- a run is created only while none is active. So those calls are made for the active run.
use conformance_suite_v.Base.{
  ℕ, ◌-◌, ◌≤◌, String, ◌≡◌, refl, true, false, Option, none, some, List, arith, eq_iff, length,
  elem, ◌↔◌, is_ok,
}
use conformance_suite_v.Base.Json.{Json}
use conformance_suite_v.Base.Sort.{sort_by, take-le, sort_by-IsSortedBy, elem-sort_by}
use conformance_suite_v.Base.Dict.{Dict, get}
use conformance_suite_v.Base.Dict.Distinct.{passes}
use conformance_suite_v.RunStore.{
  RunRecord, RunStore, RunPlanStep, empty, evicted, terminal_ids, finished_key,
  max_terminal_records, new_record, create_run, insert_run, mark_running, mark_completed,
  mark_failed, set_participant_action, clear_participant_action,
}
use conformance_suite_v.RunStore.Invariant.{is_live, IsValid, empty-IsValid}
use conformance_suite_v.RunStore.Creation.{create_run-IsValid}
use conformance_suite_v.RunStore.Changes.{
  mark_running-IsValid, mark_completed-IsValid, mark_failed-IsValid, set_participant_action-IsValid,
  clear_participant_action-IsValid,
}

pub data Step (st : RunStore) : RunStore → Type 0 where
  create :
      (k : String) (now : ℕ) (steps : List RunPlanStep) (plan validation : Option Json)
      → get st.runs k ≡ none
      → Step st (create_run k now steps plan validation st).1
  start : (k : String) (now : ℕ) → st.active_run_id ≡ some k → Step st (mark_running k now st)
  complete :
      (k : String) (now : ℕ) (result : Json)
      → st.active_run_id ≡ some k
      → Step st (mark_completed k now result st)
  fail :
      (k : String) (now : ℕ) (reason : String)
      → st.active_run_id ≡ some k
      → Step st (mark_failed k now reason st)
  ask : (k step_id url : String) (now : ℕ) → Step st (set_participant_action k step_id url now st).1
  answer :
      (k : String) (step_id : Option String) (now : ℕ)
      → Step st (clear_participant_action k step_id now st)

pub data Reach (st : RunStore) : RunStore → Type 0 where
  here : Reach st st
  next : {t u : RunStore} → Reach st t → Step t u → Reach st u

Step-IsValid : {st t : RunStore} → Step st t → IsValid st → IsValid t
Step-IsValid {st} (create k now steps plan validation fresh) v =
    create_run-IsValid k now steps plan validation st fresh v
Step-IsValid {st} (start k now active) v = mark_running-IsValid k now st active v
Step-IsValid {st} (complete k now result active) v = mark_completed-IsValid k now result st v
Step-IsValid {st} (fail k now reason active) v = mark_failed-IsValid k now reason st v
Step-IsValid {st} (ask k step_id url now) v = set_participant_action-IsValid k step_id url now st v
Step-IsValid {st} (answer k step_id now) v = clear_participant_action-IsValid k step_id now st v

-- Every store that a server can reach from the empty one is valid: each record stands under its
-- identifier and its alias is its oldest pending action, the only record that is not over is the
-- active one, and the store never holds more than eleven records.
pub Reach-IsValid : {st : RunStore} → Reach empty st → IsValid st
Reach-IsValid here = empty-IsValid
Reach-IsValid (next r s) = Step-IsValid s (Reach-IsValid r)

insert_run_iff :
    (r : RunRecord) (st : RunStore)
    → IsValid st
    → (active : Option String) → st.active_run_id ≡ active
    → (is_ok (insert_run r active st).0 ≡ true)
      ↔ ((k : String) → passes is_live (get st.runs k) ≡ false)
unfolding insert_run
insert_run_iff r st v none idle = (λ h k. ground (arith, v.live_iff k), λ h. refl)
insert_run_iff r st v (some a) busy =
    (λ h. absurd (cc), λ h. ground (arith, v.live_iff a, eq_iff a a, h a))

-- In a valid store a run is created exactly if every stored run is over.
pub create_run_iff :
    (k : String) (now : ℕ) (steps : List RunPlanStep) (plan validation : Option Json)
    (st : RunStore)
    → IsValid st
    → (is_ok (create_run k now steps plan validation st).0 ≡ true)
      ↔ ((j : String) → passes is_live (get st.runs j) ≡ false)
unfolding create_run
create_run_iff k now steps plan validation st v =
    insert_run_iff (new_record k now steps plan validation) st v st.active_run_id refl

-- Of the runs that are over, those that a creation evicts ended no later than those that it keeps.
pub evicted_oldest :
    (runs : Dict RunRecord) (gone kept : String)
    → elem gone (evicted runs) ≡ true
    → elem kept (terminal_ids runs) ≡ true
    → elem kept (evicted runs) ≡ false
    → finished_key (get runs gone) ≤ finished_key (get runs kept)
unfolding evicted elem
evicted_oldest runs gone kept g k n =
    let ids = terminal_ids runs in
    let key = λ (i : String). finished_key (get runs i) in
    ground (
      arith,
      elem-sort_by key kept ids,
      sort_by-IsSortedBy key ids,
      take-le key (length ids - max_terminal_records) (sort_by key ids) gone kept
          (sort_by-IsSortedBy key ids),
    )
