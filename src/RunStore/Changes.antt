-- ===== src/RunStore/Changes.antt =====
-- Every later change of a run keeps the invariant of the run store.
use conformance_suite_v.Base.{
  ℕ, String, ◌≡◌, refl, false, Option, none, some, arith, eq_iff, Result, ok, err, filter,
}
use conformance_suite_v.Base.Json.{Json}
use conformance_suite_v.Base.Dict.{get, put, All-put, All-get, get-put, values}
use conformance_suite_v.Base.Dict.Distinct.{Distinct-put, passes}
use conformance_suite_v.Base.Dict.Size.{length-put_same}
use conformance_suite_v.RunStore.{
  RunRecord, RunStore, first_pending_action, update_run, finish_run, start_record, mark_running,
  complete_record, fail_record, mark_completed, mark_failed, add_action, set_participant_action,
  clear_actions, clear_participant_action, clear_active, ParticipantAction, complete_action,
  RunStoreError, key_error,
}
use conformance_suite_v.RunStore.Invariant.{is_live, is_active, IsRecord, IsEntry, IsValid}

-- a change of one record that keeps what `IsRecord` says, and whether it is live
record IsChange (change : RunRecord → RunRecord) : Type 0 where
  keeps_record : (k : String) (r : RunRecord) → IsRecord k r → IsRecord k (change r)
  keeps_live : (r : RunRecord) → is_live (change r) ≡ is_live r

module _ (k : String) (r r' : RunRecord) (st : RunStore) (v : IsValid st)
    (found : get st.runs k ≡ some r) (e : IsRecord k r') where
  put-IsValid : is_live r' ≡ is_live r → IsValid (record st { runs = put st.runs k r' })
  put-IsValid same = record {
    distinct = Distinct-put st.runs k r' v.distinct;
    entries = All-put IsEntry st.runs k r' e v.entries;
    live_iff = λ j. ground (arith, eq_iff k j, get-put st.runs k j r', v.live_iff j);
    bounded = omega (arith, length-put_same st.runs k r' (ground arith), v.bounded);
  }

  put_finished-IsValid :
      is_live r' ≡ false
      → IsValid
          (record { runs = put st.runs k r'; active_run_id = clear_active k st.active_run_id })
  put_finished-IsValid over = record {
    distinct = Distinct-put st.runs k r' v.distinct;
    entries = All-put IsEntry st.runs k r' e v.entries;
    live_iff = λ j. only_active st.active_run_id j (v.live_iff j);
    bounded = omega (arith, length-put_same st.runs k r' (ground arith), v.bounded);
  }
    where
      only_active :
          (active : Option String) (j : String)
          → passes is_live (get st.runs j) ≡ is_active active j
          → passes is_live (get (put st.runs k r') j) ≡ is_active (clear_active k active) j
      only_active none j h = ground (arith, eq_iff k j, get-put st.runs k j r')
      only_active (some a) j h =
          ground (arith, eq_iff k j, eq_iff a k, eq_iff a j, get-put st.runs k j r')

module _ (k : String) (change : RunRecord → RunRecord) (st : RunStore) (v : IsValid st) where
  -- a record that changes and stays as live as it was
  update_run-IsValid :
      ((r : RunRecord)
        → IsRecord k r
        → get st.runs k ≡ some r
        → IsRecord k (change r) × (is_live (change r) ≡ is_live r))
      → IsValid (update_run k change st)
  unfolding update_run
  update_run-IsValid keeps = go (get st.runs k) refl
    where
      go :
          (o : Option RunRecord)
          → get st.runs k ≡ o
          → IsValid (elim o [ none ↦ st | some r ↦ record st { runs = put st.runs k (change r) } ])
      go none missing = v
      go (some r) found =
          let kept = keeps r (All-get IsEntry st.runs k r v.entries found) found in
          put-IsValid k r (change r) st v found kept.0 kept.1

  -- a record that comes to its end
  finish_run-IsValid :
      ((r : RunRecord) → IsRecord k r → IsRecord k (change r) × (is_live (change r) ≡ false))
      → IsValid (finish_run k change st)
  unfolding finish_run
  finish_run-IsValid ends = go (get st.runs k) refl
    where
      go :
          (o : Option RunRecord)
          → get st.runs k ≡ o
          → IsValid (elim o [
            | none ↦ st
            | some r ↦ record {
              runs = put st.runs k (change r);
              active_run_id = clear_active k st.active_run_id;
            }
          ])
      go none missing = v
      go (some r) found =
          let ended = ends r (All-get IsEntry st.runs k r v.entries found) in
          put_finished-IsValid k r (change r) st v found ended.0 ended.1

-- `mark_running` keeps the invariant when it is called for the active run, as a run's own thread
-- calls it.
pub mark_running-IsValid :
    (k : String) (now : ℕ) (st : RunStore)
    → st.active_run_id ≡ some k
    → IsValid st
    → IsValid (mark_running k now st)
unfolding mark_running first_pending_action
mark_running-IsValid k now st active v = update_run-IsValid k (start_record now) st v λ r e found. (
  record { own_id = e.own_id; alias = e.alias; ended = λ h. absurd (cc) },
  ground (arith, v.live_iff k, eq_iff k k),
)

pub mark_completed-IsValid :
    (k : String) (now : ℕ) (result : Json) (st : RunStore)
    → IsValid st
    → IsValid (mark_completed k now result st)
unfolding mark_completed first_pending_action values filter
mark_completed-IsValid k now result st v =
    finish_run-IsValid k (complete_record now result) st v
      λ r e. (record { own_id = e.own_id; alias = refl; ended = λ h. refl }, refl)

pub mark_failed-IsValid :
    (k : String) (now : ℕ) (reason : String) (st : RunStore)
    → IsValid st
    → IsValid (mark_failed k now reason st)
unfolding mark_failed first_pending_action values filter
mark_failed-IsValid k now reason st v =
    finish_run-IsValid k (fail_record now reason) st v
      λ r e. (record { own_id = e.own_id; alias = refl; ended = λ h. refl }, refl)

pub set_participant_action-IsValid :
    (k step_id url : String) (now : ℕ) (st : RunStore)
    → IsValid st
    → IsValid (set_participant_action k step_id url now st).1
unfolding set_participant_action first_pending_action
set_participant_action-IsValid k step_id url now st v = go (get st.runs k) refl
  where
    go :
        (o : Option RunRecord)
        → get st.runs k ≡ o
        → IsValid
            (elim o as (λ x. Result RunStoreError (Unit {0}) × RunStore) [
              | none ↦ (err (key_error k), st)
              | some r ↦ (ok tt, record st { runs = put st.runs k (add_action step_id url now r) })
            ]).1
    go none missing = v
    go (some r) found =
        let e = All-get IsEntry st.runs k r v.entries found in
        put-IsValid k r (add_action step_id url now r) st v found
          (record { own_id = e.own_id; alias = refl; ended = e.ended }) refl

clear_actions-IsRecord :
    (step_id : Option String) (now : ℕ) (k : String) (r : RunRecord)
    → IsRecord k r
    → IsRecord k (clear_actions step_id now r) × (is_live (clear_actions step_id now r) ≡ is_live r)
unfolding first_pending_action values filter
clear_actions-IsRecord none now k r e =
    (record { own_id = e.own_id; alias = refl; ended = e.ended }, refl)
clear_actions-IsRecord (some s) now k r e = go (get r.participant_actions s)
  where
    go :
        (o : Option ParticipantAction)
        → IsRecord k (complete_action s now r o) × (is_live (complete_action s now r o) ≡ is_live r)
    go none = (e, refl)
    go (some a) = (record { own_id = e.own_id; alias = refl; ended = e.ended }, refl)

pub clear_participant_action-IsValid :
    (k : String) (step_id : Option String) (now : ℕ) (st : RunStore)
    → IsValid st
    → IsValid (clear_participant_action k step_id now st)
unfolding clear_participant_action
clear_participant_action-IsValid k step_id now st v =
    update_run-IsValid k (clear_actions step_id now) st v
      (λ r e found. clear_actions-IsRecord step_id now k r e)
