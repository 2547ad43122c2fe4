-- ===== src/AuthSession.antt =====
-- conformance/api/auth_session_store.py: the store that relates the callback of a bank's redirect
-- to the authorisation that a run waits for. Each public method runs under one lock, so it is a
-- function on the store, and threads are sequences of calls. The clock (`datetime.now(UTC)`) and
-- the token of `secrets.token_urlsafe` are arguments. A time is a number.
pub mod Invariant
pub mod Calls
pub mod Replay
pub mod Scope
use Prim.Native.String.{count}
use conformance_suite_v.Base.{
  ℕ, String, Bool, true, false, not, Option, none, some, List, [], ◌∷◌, Result, ok, err, ltb, leb,
  str_eq, if◌then◌else◌, length, filter, count_if,
}
use conformance_suite_v.Base.Dict.{Dict, get, put, del, has, values}
use conformance_suite_v.Base.Dict.Distinct.{keys_where, del_all}

pub data AuthSessionStatus : Type 0 where
  awaiting captured error : AuthSessionStatus

pub record AuthSession : Type 0 where
  pub state : String
  pub run_id : String
  pub status : AuthSessionStatus
  pub created_at : ℕ
  pub captured_at : Option ℕ
  pub code : Option String
  pub error : Option String
  pub error_description : Option String

-- the exceptions, with what each carries
pub data AuthSessionError : Type 0 where
  unknown : String → AuthSessionError
  duplicate : String → AuthSessionError
  invalid_state : String → AuthSessionError
  limit : String → AuthSessionError
  already_resolved : String → AuthSessionStatus → AuthSessionError

abbrev pub max_sessions_per_run : ℕ
max_sessions_per_run = 8

abbrev pub min_caller_supplied_state_length : ℕ
min_caller_supplied_state_length = 32

pub record AuthSessionStore : Type 0 where
  pub sessions : Dict AuthSession

abbrev pub empty : AuthSessionStore
empty = record { sessions = [] }

abbrev pub is_awaiting : AuthSessionStatus → Bool
is_awaiting awaiting = true
is_awaiting _ = false

abbrev pub owned_by : String → AuthSession → Bool
owned_by run_id s = str_eq s.run_id run_id

-- the length check that comes before the lock is taken
abbrev pub too_short : Option String → Bool
too_short none = false
too_short (some state) = ltb (count state) min_caller_supplied_state_length

abbrev pub resolve_state : Option String → String → String
resolve_state none generated = generated
resolve_state (some state) generated = state

abbrev pub new_session : String → String → ℕ → AuthSession
new_session state run_id now = record {
  state = state;
  run_id = run_id;
  status = awaiting;
  created_at = now;
  captured_at = none;
  code = none;
  error = none;
  error_description = none;
}

-- the part of `register` under the lock
insert_session :
    String → String → ℕ → AuthSessionStore → Result AuthSessionError AuthSession × AuthSessionStore
insert_session run_id resolved now st =
    if has st.sessions resolved
    then (err (duplicate resolved), st)
    else if leb max_sessions_per_run (count_if (λ e. owned_by run_id e.1) st.sessions)
    then (err (limit run_id), st)
    else let session = new_session resolved run_id now in
      (ok session, record { sessions = put st.sessions resolved session })

-- `generated` is what `secrets.token_urlsafe(32)` would return
unfoldable pub register :
    String
    → Option String
    → String
    → ℕ
    → AuthSessionStore
    → Result AuthSessionError AuthSession × AuthSessionStore
unfolding insert_session
register run_id state generated now st =
    if too_short state
    then (err (invalid_state (resolve_state state generated)), st)
    else insert_session run_id (resolve_state state generated) now st

-- what the two captures share: the session must be there, and be waiting
resolve_session :
    String
    → (AuthSession → AuthSession)
    → Option AuthSession
    → AuthSessionStore
    → Result AuthSessionError AuthSession × AuthSessionStore
resolve_session state change none st = (err (unknown state), st)
resolve_session state change (some session) st =
    if is_awaiting session.status
    then (ok (change session), record { sessions = put st.sessions state (change session) })
    else (err (already_resolved state session.status), st)

abbrev pub set_code : String → ℕ → AuthSession → AuthSession
set_code code now s = record s { status = captured; code = some code; captured_at = some now }

abbrev pub set_error : String → Option String → ℕ → AuthSession → AuthSession
set_error reason description now s = record s {
  status = AuthSessionStatus.error;
  error = some reason;
  error_description = description;
  captured_at = some now;
}

unfoldable pub capture_code :
    String → String → ℕ → AuthSessionStore → Result AuthSessionError AuthSession × AuthSessionStore
unfolding resolve_session
capture_code state code now st =
    resolve_session state (set_code code now) (get st.sessions state) st

unfoldable pub capture_error :
    String
    → String
    → Option String
    → ℕ
    → AuthSessionStore
    → Result AuthSessionError AuthSession × AuthSessionStore
unfolding resolve_session
capture_error state reason description now st =
    resolve_session state (set_error reason description now) (get st.sessions state) st

abbrev if_owned : String → Option AuthSession → Option AuthSession
if_owned run_id none = none
if_owned run_id (some session) = if owned_by run_id session then some session else none

-- `get`
unfoldable pub get_session : String → String → AuthSessionStore → Option AuthSession
get_session run_id state st = if_owned run_id (get st.sessions state)

unfoldable pub for_run : String → AuthSessionStore → List AuthSession
for_run run_id st = filter (owned_by run_id) (values st.sessions)

unfoldable pub discard_for_run : String → AuthSessionStore → ℕ × AuthSessionStore
discard_for_run run_id st =
    let to_drop = keys_where (owned_by run_id) st.sessions in
    (length to_drop, record { sessions = del_all to_drop st.sessions })

discard_found : String → String → Option AuthSession → AuthSessionStore → Bool × AuthSessionStore
discard_found run_id state none st = (false, st)
discard_found run_id state (some session) st =
    if owned_by run_id session
    then (true, record { sessions = del st.sessions state })
    else (false, st)

unfoldable pub discard : String → String → AuthSessionStore → Bool × AuthSessionStore
unfolding discard_found
discard run_id state st = discard_found run_id state (get st.sessions state) st

unfoldable pub reset : AuthSessionStore → AuthSessionStore
reset st = empty
