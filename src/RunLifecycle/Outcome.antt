-- ===== src/RunLifecycle/Outcome.antt =====
-- How a run ends (`_execute_run` of conformance/api/run_lifecycle.py), for every engine, every client
-- and every outcome of the writing of the artifacts.
use conformance_suite_v.Base.{
  ap, sym, ◌∙◌, ℕ, String, ◌≡◌, ◌↔◌, refl, true, false, Option, none, some, [], ◌∷◌, arith, eq_iff,
  elem, filter,
}
use conformance_suite_v.Base.Json.{Fields, obj}
use conformance_suite_v.Base.Dict.{Dict, get, keys, values, get-put}
use conformance_suite_v.Base.Dict.Distinct.{Distinct, passes, elem-keys}
use conformance_suite_v.AuthSession.{
  AuthSession, AuthSessionStore, for_run, owned_by, discard_for_run,
}
use conformance_suite_v.AuthSession.Invariant as SessionInvariant
use conformance_suite_v.AuthSession.Invariant.{discard_for_run-IsValid}
use conformance_suite_v.AuthSession.Scope.{discard_for_run_scope}
use conformance_suite_v.RunStore.{
  RunRecord, RunStore, completed, is_terminal, get_run, mark_running, mark_completed, mark_failed,
  finish_run, update_run, start_record, complete_record, fail_record, snapshot_record,
}
use conformance_suite_v.RunStore.Invariant
use conformance_suite_v.RunStore.Changes.{mark_completed-IsValid, mark_failed-IsValid}
use conformance_suite_v.BrowserLogger.Actions.{Holds}
use conformance_suite_v.RunLifecycle.{
  World, Launch, Environment, Ending, complete, fail, ending, end_run, execute_run, run_record,
  run_engine, client_of, act_all, attach_plan_evidence, built, setup_error, client_raised, returned,
  raised, written, os_error, persist_raised, after_engine, after_persist, after_client,
  ClientOutcome, EngineOutcome, PersistOutcome,
}
use conformance_suite_v.RunLifecycle.Execution.{
  IsRunning, active-found, act_all-IsRunning, mark_running-IsRunning,
}

-- no session of a run is listed if none is stored
none_owned :
    (k : String) (d : Dict AuthSession)
    → Distinct (keys d)
    → ((j : String) → passes (owned_by k) (get d j) ≡ false)
    → filter (owned_by k) (values d) ≡ []
unfolding get keys values filter elem
none_owned k [] dd h = refl
none_owned k ((i, s) ∷ d) dd h = ground (
  arith,
  eq_iff i i,
  h i,
  none_owned k d dd.1 (λ j. ground (arith, eq_iff i j, elem-keys d j, h j)),
)

for_run-discard :
    (k : String) (st : AuthSessionStore)
    → SessionInvariant.IsValid st
    → for_run k (discard_for_run k st).1 ≡ []
unfolding for_run
for_run-discard k st v =
    none_owned k (discard_for_run k st).1.sessions (discard_for_run-IsValid k st v).distinct
      (λ j. ground (arith, (discard_for_run_scope k st v).0 j))

-- the record that an ending leaves
abbrev pub ended_record : ℕ → Ending → RunRecord → RunRecord
ended_record now (complete result) r = complete_record now result r
ended_record now (fail error) r = fail_record now error r

-- The run is over with this record, and nothing holds the slot.
pub record IsEnded (k : String) (now : ℕ) (e : Ending) (st : RunStore) : Type 0 where
  pub valid : Invariant.IsValid st
  pub idle : st.active_run_id ≡ none
  pub last : RunRecord
  pub stored : get st.runs k ≡ some (ended_record now e last)

finish_run-ends :
    (k : String) (change : RunRecord → RunRecord) (st : RunStore) (r : RunRecord)
    → st.active_run_id ≡ some k
    → get st.runs k ≡ some r
    → ((finish_run k change st).active_run_id ≡ none)
      × (get (finish_run k change st).runs k ≡ some (change r))
unfolding finish_run
finish_run-ends k change st r active found =
    (ground (arith, eq_iff k k), ground (arith, eq_iff k k, get-put st.runs k k (change r)))

end_run-IsEnded :
    (k : String) (now : ℕ) (e : Ending) (st : RunStore)
    → Holds k st
    → IsEnded k now e (end_run k now e st)
unfolding mark_completed mark_failed
end_run-IsEnded k now (complete result) st (v, a) =
    let (r, found) = active-found k st (v, a) in
    let ends = finish_run-ends k (complete_record now result) st r a found in
    record {
      valid = mark_completed-IsValid k now result st v;
      idle = ends.0;
      last = r;
      stored = ends.1;
    }
end_run-IsEnded k now (fail error) st (v, a) =
    let (r, found) = active-found k st (v, a) in
    let ends = finish_run-ends k (fail_record now error) st r a found in
    record {
      valid = mark_failed-IsValid k now error st v;
      idle = ends.0;
      last = r;
      stored = ends.1;
    }

module _ {P : Type 0} (env : Environment P) (l : Launch P) (k : String) (started ended : ℕ) where
  run_record-IsEnded :
      (w : World) (r : RunRecord)
      → IsRunning k w
      → IsEnded k ended (ending env r l) (run_record env l k ended (some r) w).runs
        × SessionInvariant.IsValid (run_record env l k ended (some r) w).sessions
  run_record-IsEnded w r running =
      let w' = act_all l.browser_psu_prompts k w (run_engine env l).0 in
      let h = act_all-IsRunning l.browser_psu_prompts k w (run_engine env l).0 running in
      (end_run-IsEnded k ended (ending env r l) w'.runs (h.runs, h.active), h.sessions)

  get_run-started :
      (w : World) (r : RunRecord)
      → get w.runs.runs k ≡ some r
      → get_run k (mark_running k started w.runs) ≡ some (snapshot_record (start_record started r))
  unfolding get_run mark_running update_run
  get_run-started w r found =
      ground (arith, eq_iff k k, get-put w.runs.runs k k (start_record started r))

  execute_run-IsEnded :
      (w : World) (r : RunRecord)
      → IsRunning k w
      → get w.runs.runs k ≡ some r
      → IsEnded k ended (ending env r l) (execute_run env l k started ended w).runs
        × SessionInvariant.IsValid (execute_run env l k started ended w).sessions
        × (for_run k (execute_run env l k started ended w).sessions ≡ [])
  unfolding execute_run ending
  execute_run-IsEnded w r running found =
      let w' : World = record w { runs = mark_running k started w.runs } in
      let s : RunRecord = snapshot_record (start_record started r) in
      let h = run_record-IsEnded w' s (mark_running-IsRunning k started w running) in
      let last : World = run_record env l k ended (some s) w' in
      rw (get_run-started w r found)
        (h.0, discard_for_run-IsValid k last.sessions h.1, for_run-discard k last.sessions h.1)

-- the record of a run that is over at a time, and nothing in it waits
abbrev pub IsOver : ℕ → Option RunRecord → Type 0
IsOver now none = ⊥
IsOver now (some r) =
    (is_terminal r.status ≡ true) × (r.finished_at ≡ some now) × (r.participant_actions ≡ [])

ended_record-IsOver :
    (now : ℕ) (e : Ending) (r : RunRecord) → IsOver now (some (ended_record now e r))
ended_record-IsOver now (complete result) r = (refl, refl, refl)
ended_record-IsOver now (fail error) r = (refl, refl, refl)

-- From valid stores in which a run holds the slot, its execution comes to an end whatever its engine
-- returns or raises, whatever it does to the stores meanwhile, and whether or not its client and its
-- artifacts are made: the run is then over, at the time of the end and with no action left, the slot
-- is free, no session of the run is left, and both stores are valid.
pub execute_run_ends :
    {P : Type 0} (env : Environment P) (l : Launch P) (k : String) (started ended : ℕ) (w : World)
    → IsRunning k w
    → IsOver ended (get (execute_run env l k started ended w).runs.runs k)
      × ((execute_run env l k started ended w).runs.active_run_id ≡ none)
      × (for_run k (execute_run env l k started ended w).sessions ≡ [])
      × Invariant.IsValid (execute_run env l k started ended w).runs
      × SessionInvariant.IsValid (execute_run env l k started ended w).sessions
execute_run_ends env l k started ended w running =
    let (r, found) = active-found k w.runs (running.runs, running.active) in
    let (e, sessions, gone) = execute_run-IsEnded env l k started ended w r running found in
    (
      rw e.stored (ended_record-IsOver ended (ending env r l) e.last),
      e.idle,
      gone,
      e.valid,
      sessions,
    )

-- the record of a run that is completed with a result
abbrev pub HasResult : Fields → Option RunRecord → Type 0
HasResult result none = ⊥
HasResult result (some r) = (r.status ≡ completed) × (r.result ≡ some (obj result))

-- what has to go well, and the result that is then stored
abbrev pub Succeeds : {P : Type 0} → Environment P → Launch P → RunRecord → Fields → Type 0
Succeeds env l r result =
    (client_of env l.compiled_plan l.manifest ≡ built)
    × ((own : Fields) × ((run_engine env l).1 ≡ returned own)
        × (attach_plan_evidence r own ≡ result))
    × (env.persist result ≡ written)

ended_record-HasResult :
    (now : ℕ) (e : Ending) (r : RunRecord) (result : Fields)
    → HasResult result (some (ended_record now e r)) ↔ (e ≡ complete (obj result))
ended_record-HasResult now (complete found) r result = (λ h. cc (h.1), λ h. (refl, cc))
ended_record-HasResult now (fail error) r result = (λ h. absurd (cc (h.0)), λ h. absurd (cc))

module _ {P : Type 0} (env : Environment P) (l : Launch P) (r : RunRecord) (result : Fields) where
  after_persist_iff :
      (own : Fields) (p : PersistOutcome)
      → env.persist own ≡ p
      → (after_persist env own p ≡ complete (obj result))
        ↔ ((own ≡ result) × (env.persist result ≡ written))
  after_persist_iff own written e =
      (λ h. let same : own ≡ result = cc in (same, cc), λ h. ap (λ f. complete (obj f)) h.0)
  after_persist_iff own (os_error error) e = (λ h. absurd (cc), λ h. absurd (cc (h.0, h.1)))
  after_persist_iff own persist_raised e = (λ h. absurd (cc), λ h. absurd (cc (h.0, h.1)))

  after_engine_iff :
      (o : EngineOutcome)
      → (after_engine env r o ≡ complete (obj result)) ↔ (
          ((own : Fields) × (o ≡ returned own) × (attach_plan_evidence r own ≡ result))
          × (env.persist result ≡ written))
  after_engine_iff raised = (λ h. absurd (cc), λ h. absurd (cc (h.0.1)))
  after_engine_iff (returned own) =
      let both =
        after_persist_iff (attach_plan_evidence r own) (env.persist (attach_plan_evidence r own))
          refl in
      (
        λ h. ((own, refl, (both.0 h).0), (both.0 h).1),
        λ h.
            let same : h.0.0 ≡ own = cc (h.0.1) in
            both.1 (ap (attach_plan_evidence r) (sym same) ∙ h.0.2, h.1),
      )

  after_client_iff :
      (c : ClientOutcome)
      → (after_client env r l c ≡ complete (obj result)) ↔ (
          (c ≡ built)
          × ((own : Fields) × ((run_engine env l).1 ≡ returned own)
              × (attach_plan_evidence r own ≡ result))
          × (env.persist result ≡ written))
  after_client_iff built =
      let both = after_engine_iff (run_engine env l).1 in
      (λ h. (refl, (both.0 h).0, (both.0 h).1), λ h. both.1 (h.1, h.2))
  after_client_iff (setup_error error) = (λ h. absurd (cc), λ h. absurd (cc (h.0)))
  after_client_iff client_raised = (λ h. absurd (cc), λ h. absurd (cc (h.0)))

-- A run ends as completed with a result exactly if its HTTP client was built, its engine returned, the
-- stored result is what the engine returned with the evidence of the run's plan attached, and this
-- result was written to the artifacts.
pub execute_run-HasResult_iff :
    {P : Type 0} (env : Environment P) (l : Launch P) (k : String) (started ended : ℕ) (w : World)
    (r : RunRecord) (result : Fields)
    → IsRunning k w
    → get w.runs.runs k ≡ some r
    → HasResult result (get (execute_run env l k started ended w).runs.runs k)
      ↔ Succeeds env l r result
unfolding ending
execute_run-HasResult_iff env l k started ended w r result running found =
    let e = (execute_run-IsEnded env l k started ended w r running found).0 in
    let stored = ended_record-HasResult ended (ending env r l) e.last result in
    let made = after_client_iff env l r result (client_of env l.compiled_plan l.manifest) in
    rw e.stored (λ h. made.0 (stored.0 h), λ h. stored.1 (made.1 h))
