-- ===== src/Tests/Sessions.antt =====
-- The session store (conformance/api/auth_session_store.py) in use.
use conformance_suite_v.Base.{
  ◌≤◌, suc, String, ◌≡◌, refl, false, none, some, List, [], ◌∷◌, ok, is_ok, ◌↔◌, arith, elem,
  count_if, str_eq, if◌then◌else◌,
}
use conformance_suite_v.Base.Dict.{get, put, keys}
use conformance_suite_v.Base.Dict.Distinct.{passes}
use conformance_suite_v.AuthSession.{
  AuthSessionStore, owned_by, new_session, set_code, empty, register, capture_code, capture_error,
  get_session, discard, discard_for_run,
}
use conformance_suite_v.AuthSession.Invariant.{IsValid, empty-IsValid, sessions_of}
use conformance_suite_v.AuthSession.Calls.{
  Call, register_call, code_call, error_call, apply, run_calls, run_calls-IsValid,
}
use conformance_suite_v.AuthSession.Replay.{
  times_resolved, times_resolved-le-one, run_calls-resolved,
}
use conformance_suite_v.AuthSession.Scope.{
  get_session_iff, discard_for_run_scope, discard_scope, register_accepted, register_refused,
}

abbrev token : String
token = "0123456789abcdef0123456789abcdef"

abbrev history : List Call
history =
    register_call "run-1" none token 10
    ∷ code_call token "code-a" 20
    ∷ code_call token "code-b" 30
    ∷ error_call token "access_denied" none 40
    ∷ []

abbrev one_session : AuthSessionStore
one_session = record {
  sessions = (token, set_code "code-a" 20 (new_session token "run-1" 10)) ∷ [];
}

-- the second and the third redirect are refused
replay_refused : run_calls empty history ≡ one_session
unfolding run_calls apply register capture_code capture_error get put count_if
replay_refused = refl

short_token_refused : is_ok (register "run-1" (some "short") token 10 empty).0 ≡ false
unfolding register get count_if
short_token_refused = refl

one_session-IsValid : IsValid one_session
unfolding keys count_if elem
one_session-IsValid = record {
  distinct = (refl, tt);
  entries = ((refl, (refl, refl, refl)), tt);
  capped = λ r. ground arith;
}

run_calls-IsValid_example : IsValid (run_calls empty history)
run_calls-IsValid_example = run_calls-IsValid empty history empty-IsValid

times_resolved-le-one_example : times_resolved token empty history ≤ 1
unfolding apply register capture_code capture_error get put count_if
times_resolved-le-one_example =
    times_resolved-le-one token empty history empty-IsValid
      (λ h. refl, (λ h. refl, (λ h. refl, (λ h. refl, tt))))

abbrev redirects : List Call
redirects = code_call token "code-b" 30 ∷ error_call token "access_denied" none 40 ∷ []

run_calls-resolved_example :
    get (run_calls one_session redirects).sessions token
    ≡ some (set_code "code-a" 20 (new_session token "run-1" 10))
unfolding apply capture_code capture_error get put
run_calls-resolved_example =
    run_calls-resolved token (set_code "code-a" 20 (new_session token "run-1" 10)) one_session
      redirects refl one_session-IsValid (λ h. refl, (λ h. refl, tt)) refl

get_session_iff_case :
    (get_session "run-2" token one_session ≡ some (new_session token "run-1" 10)) ↔ (
      (get one_session.sessions token ≡ some (new_session token "run-1" 10))
      × ◌≡◌ {A = String} "run-1" "run-2")
get_session_iff_case = get_session_iff "run-2" token one_session (new_session token "run-1" 10)

discard_for_run_scope_example :
    ((state : String)
      → get (discard_for_run "run-1" one_session).1.sessions state ≡ (
          if passes (owned_by "run-1") (get one_session.sessions state)
          then none
          else get one_session.sessions state))
    × ((discard_for_run "run-1" one_session).0 ≡ sessions_of "run-1" one_session)
discard_for_run_scope_example = discard_for_run_scope "run-1" one_session one_session-IsValid

discard_scope_case :
    ((discard "run-2" token one_session).0
      ≡ passes (owned_by "run-2") (get one_session.sessions token))
    × (get (discard "run-2" token one_session).1.sessions token ≡ (
        if str_eq token token
        then (if passes (owned_by "run-2") (get one_session.sessions token)
            then none
            else get one_session.sessions token)
        else get one_session.sessions token))
discard_scope_case = discard_scope "run-2" token token one_session

abbrev other_token : String
other_token = "fedcba9876543210fedcba9876543210"

register_accepted_case :
    ((register "run-1" (some other_token) token 50 one_session).0
      ≡ ok (new_session other_token "run-1" 50))
    × (sessions_of "run-1" (register "run-1" (some other_token) token 50 one_session).1
        ≡ suc (sessions_of "run-1" one_session))
    × ((other : String)
        → get (register "run-1" (some other_token) token 50 one_session).1.sessions other ≡ (
            if str_eq other_token other
            then some (new_session other_token "run-1" 50)
            else get one_session.sessions other))
unfolding get count_if
register_accepted_case = register_accepted "run-1" (some other_token) token 50 one_session refl

register_refused_case :
    (is_ok (register "run-1" (some token) token 50 one_session).0 ≡ false)
    × ((register "run-1" (some token) token 50 one_session).1 ≡ one_session)
unfolding get count_if
register_refused_case = register_refused "run-1" (some token) token 50 one_session refl
