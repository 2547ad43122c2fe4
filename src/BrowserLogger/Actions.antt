-- ===== src/BrowserLogger/Actions.antt =====
-- The browser's logger keeps the run store valid (conformance/api/run_lifecycle.py).
use conformance_suite_v.Base.{ℕ, String, ◌≡◌, Option, none, some, List, Result, ok, err, arith}
use conformance_suite_v.RunStore.{
  RunRecord, RunStore, RunStoreError, set_participant_action, clear_participant_action, update_run,
  clear_actions,
}
use conformance_suite_v.RunStore.Invariant
use conformance_suite_v.RunStore.Changes.{
  set_participant_action-IsValid, clear_participant_action-IsValid,
}
use conformance_suite_v.BrowserLogger.{Event, observe, emit, url_of, set_action, forward}

-- a run store that is valid, and whose slot the run holds
abbrev pub Holds : String → RunStore → Type 0
Holds k st = Invariant.IsValid st × (st.active_run_id ≡ some k)

pub update_run-active :
    (j : String) (change : RunRecord → RunRecord) (st : RunStore)
    → (update_run j change st).active_run_id ≡ st.active_run_id
unfolding update_run
update_run-active j change st = ground arith

module _ (k : String) (now : ℕ) where
  clear-Holds :
      (step_id : Option String) (st : RunStore)
      → Holds k st
      → Holds k (clear_participant_action k step_id now st)
  unfolding clear_participant_action
  clear-Holds step_id st (v, a) = (
    clear_participant_action-IsValid k step_id now st v,
    ground (arith, update_run-active k (clear_actions step_id now) st),
  )

  set-Holds :
      (step_id url : String) (st : RunStore)
      → Holds k st
      → Holds k (set_participant_action k step_id url now st).1
  unfolding set_participant_action
  set-Holds step_id url st (v, a) =
      (set_participant_action-IsValid k step_id url now st v, ground arith)

  set_action-Holds :
      (step_id url : Option String) (st : RunStore)
      → Holds k st
      → Holds k (set_action k step_id url now st).1
  set_action-Holds (some s) (some u) st h = set-Holds s u st h
  set_action-Holds (some s) none st h = h
  set_action-Holds none url st h = h

  observe-Holds : (e : Event) (st : RunStore) → Holds k st → Holds k (observe k e now st).1
  unfolding observe
  observe-Holds e st h = ground (
    arith,
    set_action-Holds e.step_id (url_of e.payload) st h,
    clear-Holds none st h,
    clear-Holds e.step_id st h,
  )

  pub emit-Holds :
      (e : Event) (st : RunStore) (log : List Event) → Holds k st → Holds k (emit k e now st log).1
  unfolding emit
  emit-Holds e st log h = go (observe k e now st) (observe-Holds e st h)
    where
      go :
          (r : Result RunStoreError (Unit {0}) × RunStore)
          → Holds k r.1
          → Holds k (forward e log r).1
      go (ok tt, st') h' = h'
      go (err x, st') h' = h'
