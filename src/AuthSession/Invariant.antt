-- ===== src/AuthSession/Invariant.antt =====
-- What holds of the session store between two calls, whatever the threads do.
use conformance_suite_v.Base.{
  ℕ, suc, ◌≤◌, String, ◌≡◌, refl, true, Option, none, some, List, [], ◌∷◌, is_some, All, arith,
  eq_iff, count_if, Bool-cases, ◌∙◌, inl, inr,
}
use conformance_suite_v.Base.Dict.{
  get, put, del, keys, All-put, All-del, All-get, count_if-put_new, count_if-put_same, count_if-del,
}
use conformance_suite_v.Base.Dict.Distinct.{
  Distinct, Distinct-put, Distinct-del, del_all, keys_where,
}
use conformance_suite_v.AuthSession.{
  AuthSession, AuthSessionStore, AuthSessionStatus, awaiting, captured, max_sessions_per_run,
  owned_by, new_session, set_code, set_error, empty, register, capture_code, capture_error, discard,
  discard_for_run, resolve_session, is_awaiting, resolve_state, insert_session,
}

-- which fields are set in each state of the life of a session
abbrev pub HasShape : AuthSessionStatus → AuthSession → Type 0
HasShape awaiting s = (s.code ≡ none) × (s.error ≡ none) × (s.captured_at ≡ none)
HasShape captured s = (is_some s.code ≡ true) × (s.error ≡ none) × (is_some s.captured_at ≡ true)
HasShape AuthSessionStatus.error s =
    (s.code ≡ none) × (is_some s.error ≡ true) × (is_some s.captured_at ≡ true)

abbrev pub IsEntry : String × AuthSession → Type 0
IsEntry (k, s) = (s.state ≡ k) × HasShape s.status s

abbrev pub sessions_of : String → AuthSessionStore → ℕ
sessions_of run_id st = count_if (λ e. owned_by run_id e.1) st.sessions

pub record IsValid (st : AuthSessionStore) : Type 0 where
  pub distinct : Distinct (keys st.sessions)
  pub entries : All IsEntry st.sessions
  pub capped : (run_id : String) → sessions_of run_id st ≤ max_sessions_per_run

pub empty-IsValid : IsValid empty
unfolding keys count_if
empty-IsValid = record { distinct = tt; entries = tt; capped = λ r. omega arith }

module _ (k : String) (s : AuthSession) (st : AuthSessionStore) (v : IsValid st)
    (e : IsEntry (k, s)) where
  -- a new session under a new token, where its run has room
  put_new-IsValid :
      get st.sessions k ≡ none
      → suc (sessions_of s.run_id st) ≤ max_sessions_per_run
      → IsValid (record { sessions = put st.sessions k s })
  put_new-IsValid fresh room = record {
    distinct = Distinct-put st.sessions k s v.distinct;
    entries = All-put IsEntry st.sessions k s e v.entries;
    capped = λ r.
        rw (count_if-put_new (λ x. owned_by r x.1) st.sessions k s fresh)
          (ground (arith, eq_iff s.run_id r, v.capped r));
  }

  -- a session that changes, and stays with its run
  put_same-IsValid :
      (old : AuthSession)
      → get st.sessions k ≡ some old
      → s.run_id ≡ old.run_id
      → IsValid (record { sessions = put st.sessions k s })
  put_same-IsValid old found same = record {
    distinct = Distinct-put st.sessions k s v.distinct;
    entries = All-put IsEntry st.sessions k s e v.entries;
    capped = λ r.
        rw (count_if-put_same (λ x. owned_by r x.1) st.sessions k s old found (rw same))
          (v.capped r);
  }

insert_session-IsValid :
    (run_id state : String) (now : ℕ) (st : AuthSessionStore)
    → IsValid st
    → IsValid (insert_session run_id state now st).1
unfolding insert_session
insert_session-IsValid run_id state now st v =
    ground
      (arith, put_new-IsValid state (new_session state run_id now) st v (refl, (refl, refl, refl)))

pub register-IsValid :
    (run_id : String) (state : Option String) (generated : String) (now : ℕ) (st : AuthSessionStore)
    → IsValid st
    → IsValid (register run_id state generated now st).1
unfolding register
register-IsValid run_id state generated now st v =
    ground (arith, insert_session-IsValid run_id (resolve_state state generated) now st v)

-- a change of one waiting session, as the two captures make it
record IsCapture (change : AuthSession → AuthSession) : Type 0 where
  keeps_run : (s : AuthSession) → (change s).run_id ≡ s.run_id
  keeps_state : (s : AuthSession) → (change s).state ≡ s.state
  shapes : (s : AuthSession) → HasShape awaiting s → HasShape (change s).status (change s)

HasShape-awaiting :
    (s : AuthSession) → is_awaiting s.status ≡ true → HasShape s.status s → HasShape awaiting s
HasShape-awaiting s w h = ground arith

module _ (state : String) (change : AuthSession → AuthSession) (c : IsCapture change) where
  resolve_session-IsValid :
      (st : AuthSessionStore) (found : Option AuthSession)
      → get st.sessions state ≡ found
      → IsValid st
      → IsValid (resolve_session state change found st).1
  unfolding resolve_session
  resolve_session-IsValid st none e v = v
  resolve_session-IsValid st (some s) e v =
      let entry : IsEntry (state, s) = All-get IsEntry st.sessions state s v.entries e in
      elim (Bool-cases (is_awaiting s.status)) [
        | inl w ↦ rw w (
            put_same-IsValid state (change s) st v
              (c.keeps_state s ∙ entry.0, c.shapes s (HasShape-awaiting s w entry.1)) s e
              (c.keeps_run s))
        | inr w ↦ rw w v
      ]

pub capture_code-IsValid :
    (state code : String) (now : ℕ) (st : AuthSessionStore)
    → IsValid st
    → IsValid (capture_code state code now st).1
unfolding capture_code
capture_code-IsValid state code now st v =
    resolve_session-IsValid state (set_code code now)
      (record { keeps_run = λ s. refl; keeps_state = λ s. refl; shapes = λ s h. (refl, h.1, refl) })
      st (get st.sessions state) refl v

pub capture_error-IsValid :
    (state reason : String) (description : Option String) (now : ℕ) (st : AuthSessionStore)
    → IsValid st
    → IsValid (capture_error state reason description now st).1
unfolding capture_error
capture_error-IsValid state reason description now st v =
    resolve_session-IsValid state (set_error reason description now)
      (record { keeps_run = λ s. refl; keeps_state = λ s. refl; shapes = λ s h. (h.0, refl, refl) })
      st (get st.sessions state) refl v

del-IsValid :
    (k : String) (st : AuthSessionStore)
    → IsValid st
    → IsValid (record { sessions = del st.sessions k })
del-IsValid k st v = record {
  distinct = Distinct-del st.sessions k v.distinct;
  entries = All-del IsEntry st.sessions k v.entries;
  capped = λ r. omega (arith, count_if-del (λ x. owned_by r x.1) st.sessions k, v.capped r);
}

del_all-IsValid :
    (ks : List String) (st : AuthSessionStore)
    → IsValid st
    → IsValid (record { sessions = del_all ks st.sessions })
unfolding del_all
del_all-IsValid [] st v = v
del_all-IsValid (k ∷ ks) st v =
    del_all-IsValid ks (record { sessions = del st.sessions k }) (del-IsValid k st v)

pub discard_for_run-IsValid :
    (run_id : String) (st : AuthSessionStore) → IsValid st → IsValid (discard_for_run run_id st).1
unfolding discard_for_run
discard_for_run-IsValid run_id st v =
    del_all-IsValid (keys_where (owned_by run_id) st.sessions) st v

pub discard-IsValid :
    (run_id state : String) (st : AuthSessionStore)
    → IsValid st
    → IsValid (discard run_id state st).1
unfolding discard
discard-IsValid run_id state st v = ground (arith, del-IsValid state st v)
