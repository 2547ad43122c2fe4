-- ===== src/RunLifecycle/Execution.antt =====
-- The two stores while a run executes, whatever its engine and the other threads do
-- (conformance/api/run_lifecycle.py).
use conformance_suite_v.Base.{
  ℕ, String, ◌≡◌, refl, Bool, true, false, Option, none, some, List, [], ◌∷◌, arith, eq_iff,
}
use conformance_suite_v.Base.Dict.{get}
use conformance_suite_v.AuthSession.Calls.{apply-IsValid}
use conformance_suite_v.AuthSession.Invariant as SessionInvariant
use conformance_suite_v.RunStore.{RunRecord, RunStore, mark_running, start_record}
use conformance_suite_v.RunStore.Invariant
use conformance_suite_v.RunStore.Changes.{mark_running-IsValid}
use conformance_suite_v.RunStore.Creation.{create_run_busy}
use conformance_suite_v.BrowserLogger.Actions.{Holds, emit-Holds, update_run-active}
use conformance_suite_v.RunLifecycle.{
  World, Action, act, act_all, event_action, session_action, create_action,
}

-- both stores are valid, and the run holds the run slot
pub record IsRunning (k : String) (w : World) : Type 0 where
  pub runs : Invariant.IsValid w.runs
  pub sessions : SessionInvariant.IsValid w.sessions
  pub active : w.runs.active_run_id ≡ some k

act-IsRunning :
    (browser : Bool) (k : String) (w : World) (a : Action)
    → IsRunning k w
    → IsRunning k (act browser k w a)
unfolding act
act-IsRunning true k w (event_action e now) r =
    let h = emit-Holds k now e w.runs w.log (r.runs, r.active) in
    record { runs = h.0; sessions = r.sessions; active = h.1 }
act-IsRunning false k w (event_action e now) r = record {
  runs = r.runs;
  sessions = r.sessions;
  active = r.active;
}
act-IsRunning true k w (session_action c) r = record {
  runs = r.runs;
  sessions = apply-IsValid w.sessions c r.sessions;
  active = r.active;
}
act-IsRunning false k w (session_action c) r = record {
  runs = r.runs;
  sessions = apply-IsValid w.sessions c r.sessions;
  active = r.active;
}
act-IsRunning true k w (create_action j now steps plan validation) r =
    rw (create_run_busy j now steps plan validation w.runs k r.active)
      (record { runs = r.runs; sessions = r.sessions; active = r.active })
act-IsRunning false k w (create_action j now steps plan validation) r =
    rw (create_run_busy j now steps plan validation w.runs k r.active)
      (record { runs = r.runs; sessions = r.sessions; active = r.active })

-- While a run holds the slot, whatever events it emits, whatever calls any thread makes on the
-- session store, and however often a request thread tries to start a run, both stores stay valid and
-- the run keeps the slot.
pub act_all-IsRunning :
    (browser : Bool) (k : String) (w : World) (actions : List Action)
    → IsRunning k w
    → IsRunning k (act_all browser k w actions)
unfolding act_all
act_all-IsRunning browser k w [] r = r
act_all-IsRunning browser k w (a ∷ actions) r =
    act_all-IsRunning browser k (act browser k w a) actions (act-IsRunning browser k w a r)

pub mark_running-IsRunning :
    (k : String) (now : ℕ) (w : World)
    → IsRunning k w
    → IsRunning k (record w { runs = mark_running k now w.runs })
unfolding mark_running
mark_running-IsRunning k now w r = record {
  runs = mark_running-IsValid k now w.runs r.active r.runs;
  sessions = r.sessions;
  active = ground (arith, r.active, update_run-active k (start_record now) w.runs);
}

-- the record of the run that holds the slot is there
pub active-found :
    (k : String) (st : RunStore) → Holds k st → (r : RunRecord) × (get st.runs k ≡ some r)
active-found k st (v, a) = go (get st.runs k) refl
  where
    go : (o : Option RunRecord) → get st.runs k ≡ o → (r : RunRecord) × (get st.runs k ≡ some r)
    go none e = absurd (ground (arith, v.live_iff k, eq_iff k k))
    go (some r) e = (r, e)
