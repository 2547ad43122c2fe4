-- ===== src/AuthSession/Scope.antt =====
-- Registration, and what one run can see and remove of the store that all runs share.
use conformance_suite_v.Base.{
  ℕ, suc, String, ◌≡◌, Bool, true, false, Option, none, some, is_ok, ok, arith, str_eq, eq_iff,
  if◌then◌else◌, Option-cases, inl, inr, ◌↔◌, leb,
}
use conformance_suite_v.Base.Dict.{get, has, get-put, get-del, count_if-put_new}
use conformance_suite_v.Base.Dict.Distinct.{elem-keys_where, get-del_all, length-keys_where, passes}
use conformance_suite_v.AuthSession.{
  AuthSession, AuthSessionStore, owned_by, register, get_session, discard, discard_for_run,
  resolve_state, too_short, new_session, max_sessions_per_run,
}
use conformance_suite_v.AuthSession.Invariant.{IsValid, sessions_of}

-- A lookup by run and token returns a session exactly if the token names that session and the
-- session belongs to the run: no run reads the session of another one.
pub get_session_iff :
    (run_id state : String) (st : AuthSessionStore) (a : AuthSession)
    → (get_session run_id state st ≡ some a)
      ↔ ((get st.sessions state ≡ some a) × (a.run_id ≡ run_id))
unfolding get_session
get_session_iff run_id state st a = elim (Option-cases (get st.sessions state)) [
  | inl e ↦ (λ h. ground arith, λ h. ground arith)
  | inr (b, e) ↦
      (λ h. ground (arith, eq_iff b.run_id run_id), λ h. ground (arith, eq_iff b.run_id run_id))
]

-- The end of a run removes all its sessions and no session of another run, and the number that
-- is returned is the number of sessions that the run had.
pub discard_for_run_scope :
    (run_id : String) (st : AuthSessionStore)
    → IsValid st
    → ((state : String)
        → get (discard_for_run run_id st).1.sessions state ≡ (
            if passes (owned_by run_id) (get st.sessions state)
            then none
            else get st.sessions state))
      × ((discard_for_run run_id st).0 ≡ sessions_of run_id st)
unfolding discard_for_run
discard_for_run_scope run_id st v = (
  λ k. rw get-del_all (rw (elem-keys_where (owned_by run_id) st.sessions k v.distinct)),
  length-keys_where (owned_by run_id) st.sessions,
)

-- `discard` removes the session of the token exactly if it belongs to the run, says whether it
-- did, and leaves every other token as it was.
pub discard_scope :
    (run_id state other : String) (st : AuthSessionStore)
    → ((discard run_id state st).0 ≡ passes (owned_by run_id) (get st.sessions state))
      × (get (discard run_id state st).1.sessions other ≡ (
          if str_eq state other
          then (if passes (owned_by run_id) (get st.sessions state)
              then none
              else get st.sessions other)
          else get st.sessions other))
unfolding discard
discard_scope run_id state other st =
    (ground arith, ground (arith, eq_iff state other, get-del st.sessions state other))

-- which registrations the store takes
abbrev pub has_room : String → Option String → String → AuthSessionStore → Bool
has_room run_id state generated st =
    if too_short state
    then false
    else if has st.sessions (resolve_state state generated)
    then false
    else if leb max_sessions_per_run (sessions_of run_id st)
    then false
    else true

-- A registration that finds a long enough, unused token and fewer than eight sessions of its run
-- adds one waiting session under that token, and leaves the other tokens as they were.
pub register_accepted :
    (run_id : String) (state : Option String) (generated : String) (now : ℕ) (st : AuthSessionStore)
    → has_room run_id state generated st ≡ true
    → ((register run_id state generated now st).0
        ≡ ok (new_session (resolve_state state generated) run_id now))
      × (sessions_of run_id (register run_id state generated now st).1
          ≡ suc (sessions_of run_id st))
      × ((other : String)
          → get (register run_id state generated now st).1.sessions other ≡ (
              if str_eq (resolve_state state generated) other
              then some (new_session (resolve_state state generated) run_id now)
              else get st.sessions other))
unfolding register
register_accepted run_id state generated now st h =
    let k = resolve_state state generated in
    (
      ground arith,
      ground (
        arith,
        eq_iff run_id run_id,
        count_if-put_new (λ e. owned_by run_id e.1) st.sessions k (new_session k run_id now),
      ),
      λ other. ground (arith, get-put st.sessions k other (new_session k run_id now)),
    )

-- A registration with a token that is too short or already in use, or for a run that has eight
-- sessions, raises and changes nothing.
pub register_refused :
    (run_id : String) (state : Option String) (generated : String) (now : ℕ) (st : AuthSessionStore)
    → has_room run_id state generated st ≡ false
    → (is_ok (register run_id state generated now st).0 ≡ false)
      × ((register run_id state generated now st).1 ≡ st)
unfolding register
register_refused run_id state generated now st h = (ground arith, ground arith)
