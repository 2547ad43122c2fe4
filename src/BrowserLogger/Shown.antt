-- ===== src/BrowserLogger/Shown.antt =====
-- Which address a browser is shown for a step, after the events of a run
-- (conformance/api/run_lifecycle.py).
use mathlib.Core.List.{append-nil, append_assoc}
use conformance_suite_v.Base.{
  ap, sym, ◌∙◌, map, ◌++◌, ℕ, String, ◌≡◌, refl, true, Option, none, some, List, [], ◌∷◌, Result,
  ok, err, arith, str_eq, elem, eq_iff, if◌then◌else◌, Bool-cases, inl, inr, is_some,
}
use conformance_suite_v.Base.Dict.{has, get-put, get}
use conformance_suite_v.RunStore.{
  RunRecord, RunStore, RunStoreError, ParticipantAction, complete_action, done, waiting, is_waiting,
  set_participant_action, clear_participant_action, update_run, clear_actions, add_action,
}
use conformance_suite_v.BrowserLogger.{Event, observe, emit, url_of, set_action, forward}

-- the address that a browser is shown for a step of a run
abbrev pub waiting_url : Option ParticipantAction → Option String
waiting_url none = none
waiting_url (some a) = if is_waiting a then some a.url else none

abbrev pub shown_in : String → Option RunRecord → Option String
shown_in step_id none = none
shown_in step_id (some r) = waiting_url (get r.participant_actions step_id)

abbrev pub shown : String → String → RunStore → Option String
shown run_id step_id st = shown_in step_id (get st.runs run_id)

-- what is shown for a step after an event, by what was shown before
abbrev ask_for : String → Option String → Option String → Option String → Option String
ask_for step_id (some i) (some url) before = if str_eq i step_id then some url else before
ask_for step_id _ _ before = before

abbrev end_of : String → Option String → Option String → Option String
end_of step_id (some i) before = if str_eq i step_id then none else before
end_of step_id none before = before

abbrev pub shown_after : String → Event → Option String → Option String
shown_after step_id e before =
    if str_eq e.event_type "psu-authorization-url"
    then ask_for step_id e.step_id (url_of e.payload) before
    else if str_eq e.event_type "step-completed"
    then end_of step_id e.step_id before
    else if elem e.event_type
        ("auth-callback-received" ∷ "run-completed" ∷ "application-error" ∷ [])
    then none
    else before

unfoldable pub shown_after_all : String → List (Event × ℕ) → Option String → Option String
shown_after_all step_id [] before = before
shown_after_all step_id ((e, now) ∷ events) before =
    shown_after_all step_id events (shown_after step_id e before)

-- a run emits these events at these times
unfoldable pub emit_all : String → List (Event × ℕ) → RunStore → List Event → RunStore × List Event
emit_all run_id [] st log = (st, log)
emit_all run_id ((e, now) ∷ events) st log =
    let (outcome, st', log') = emit run_id e now st log in emit_all run_id events st' log'

-- a change of the stored record of a run, by what it does to the address of a step
module _ (k s : String) (now : ℕ) (st : RunStore) (r : RunRecord)
    (found : get st.runs k ≡ some r) where
  -- the event went through, the record is still there, and the step shows this
  abbrev Shows : Option String → Result RunStoreError (Unit {0}) × RunStore → Type 0
  Shows url (outcome, st') = (outcome ≡ ok tt) × (shown k s st' ≡ url) × (has st'.runs k ≡ true)

  Shows-set :
      (i url : String)
      → Shows
          (if str_eq i s then some url else shown k s st)
          (set_participant_action k i url now st)
  unfolding set_participant_action
  Shows-set i url = ground (
    arith,
    eq_iff k k,
    eq_iff i s,
    get-put st.runs k k (add_action i url now r),
    get-put r.participant_actions i s (asked i url),
  )
    where
      asked : String → String → ParticipantAction
      asked i url = record {
        step_id = i;
        url = url;
        status = waiting;
        created_at = now;
        completed_at = none;
      }

  Shows-done :
      (i : String)
      → Shows
          (if str_eq i s then none else shown k s st)
          (ok tt, clear_participant_action k (some i) now st)
  unfolding clear_participant_action update_run
  Shows-done i = go (get r.participant_actions i) refl
    where
      go :
          (o : Option ParticipantAction)
          → get r.participant_actions i ≡ o
          → Shows
              (if str_eq i s then none else shown k s st)
              (ok tt, update_run k (λ x. complete_action i now x (get x.participant_actions i)) st)
      go none e = ground (arith, eq_iff k k, eq_iff i s, get-put st.runs k k r)
      go (some a) e = ground (
        arith,
        eq_iff k k,
        eq_iff i s,
        get-put st.runs k k (complete_action i now r (some a)),
        get-put r.participant_actions i s (record a { status = done; completed_at = some now }),
      )

  Shows-clear : Shows none (ok tt, clear_participant_action k none now st)
  unfolding clear_participant_action update_run get
  Shows-clear = ground (arith, eq_iff k k, get-put st.runs k k (clear_actions none now r))

  Shows-same : Shows (shown k s st) (ok tt, st)
  Shows-same = (refl, refl, rw found refl)

  Shows-ask :
      (i url : Option String) → Shows (ask_for s i url (shown k s st)) (set_action k i url now st)
  Shows-ask (some i) (some url) = Shows-set i url
  Shows-ask (some i) none = Shows-same
  Shows-ask none url = Shows-same

  Shows-end :
      (i : Option String)
      → Shows (end_of s i (shown k s st)) (elim i [
        | some step_id ↦ (ok tt, clear_participant_action k (some step_id) now st)
        | none ↦ (ok tt, st)
      ])
  Shows-end (some i) = Shows-done i
  Shows-end none = Shows-same

  Shows-observe : (e : Event) → Shows (shown_after s e (shown k s st)) (observe k e now st)
  unfolding observe
  Shows-observe e = elim (Bool-cases (str_eq e.event_type "psu-authorization-url")) [
    | inl h ↦ rw h (Shows-ask e.step_id (url_of e.payload))
    | inr h ↦ rw h (elim (Bool-cases (str_eq e.event_type "step-completed")) [
      | inl g ↦ rw g (Shows-end e.step_id)
      | inr g ↦
          rw g
            (elim (Bool-cases (
              elem e.event_type
                ("auth-callback-received" ∷ "run-completed" ∷ "application-error" ∷ []))) [
                  | inl c ↦ rw c Shows-clear
                  | inr c ↦ rw c Shows-same
                ])
    ])
  ]

  Shows-emit :
      (e : Event) (log : List Event)
      → Shows (shown_after s e (shown k s st)) ((emit k e now st log).0, (emit k e now st log).1)
        × ((emit k e now st log).2 ≡ log ++ e ∷ [])
  unfolding emit
  Shows-emit e log = go (observe k e now st) (Shows-observe e)
    where
      go :
          (o : Result RunStoreError (Unit {0}) × RunStore)
          → Shows (shown_after s e (shown k s st)) o
          → Shows (shown_after s e (shown k s st)) ((forward e log o).0, (forward e log o).1)
            × ((forward e log o).2 ≡ log ++ e ∷ [])
      go (ok tt, st') h = (h, refl)
      go (err x, st') h = absurd (cc (h.0))

-- While the record of a run is stored, its decorated logger hands on every event in order, and for
-- each step the run shows the address that the events ask for: the one of the step's last
-- authorisation URL, unless the step was completed since, a callback was received, or the run came
-- to its end.
pub emit_all-shown :
    (k s : String) (events : List (Event × ℕ)) (st : RunStore) (log : List Event)
    → has st.runs k ≡ true
    → (shown k s (emit_all k events st log).0 ≡ shown_after_all s events (shown k s st))
      × ((emit_all k events st log).1 ≡ log ++ map (λ (e : Event × ℕ). e.0) events)
unfolding emit_all shown_after_all
emit_all-shown k s [] st log there = (refl, sym (append-nil log))
emit_all-shown k s ((e, now) ∷ events) st log there =
    let (r, found) = stored (get st.runs k) there in
    let (shows, handed) = Shows-emit k s now st r found e log in
    let rest = emit_all-shown k s events (emit k e now st log).1 (emit k e now st log).2 shows.2 in
    (
      rest.0 ∙ ap (shown_after_all s events) shows.1,
      rest.1
          ∙ ap (λ (l : List Event). l ++ map (λ (x : Event × ℕ). x.0) events) handed
          ∙ append_assoc log (e ∷ []) (map (λ (x : Event × ℕ). x.0) events),
    )
  where
    stored : (o : Option RunRecord) → is_some o ≡ true → (r : RunRecord) × (o ≡ some r)
    stored none h = absurd (cc)
    stored (some r) h = (r, refl)
