-- ===== src/AuthSession/Calls.antt =====
-- The calls that change the session store, as the request threads, the callback view and the run
-- driver make them: the lock serialises them, so a history is a list of calls.
use conformance_suite_v.Base.{ℕ, String, Option, List, [], ◌∷◌}
use conformance_suite_v.AuthSession.{
  AuthSessionStore, register, capture_code, capture_error, discard, discard_for_run, reset,
}
use conformance_suite_v.AuthSession.Invariant.{
  IsValid, empty-IsValid, register-IsValid, capture_code-IsValid, capture_error-IsValid,
  discard-IsValid, discard_for_run-IsValid,
}

pub data Call : Type 0 where
  register_call : String → Option String → String → ℕ → Call
  code_call : String → String → ℕ → Call
  error_call : String → String → Option String → ℕ → Call
  discard_run_call : String → Call
  discard_call : String → String → Call
  reset_call : Call

unfoldable pub apply : AuthSessionStore → Call → AuthSessionStore
apply st (register_call run_id state generated now) = (register run_id state generated now st).1
apply st (code_call state code now) = (capture_code state code now st).1
apply st (error_call state reason description now) =
    (capture_error state reason description now st).1
apply st (discard_run_call run_id) = (discard_for_run run_id st).1
apply st (discard_call run_id state) = (discard run_id state st).1
apply st reset_call = reset st

unfoldable pub run_calls : AuthSessionStore → List Call → AuthSessionStore
run_calls st [] = st
run_calls st (c ∷ cs) = run_calls (apply st c) cs

pub apply-IsValid : (st : AuthSessionStore) (c : Call) → IsValid st → IsValid (apply st c)
unfolding apply reset
apply-IsValid st (register_call r s g n) v = register-IsValid r s g n st v
apply-IsValid st (code_call s c n) v = capture_code-IsValid s c n st v
apply-IsValid st (error_call s e d n) v = capture_error-IsValid s e d n st v
apply-IsValid st (discard_run_call r) v = discard_for_run-IsValid r st v
apply-IsValid st (discard_call r s) v = discard-IsValid r s st v
apply-IsValid st reset_call v = empty-IsValid

-- From a store that is valid, whatever calls come and in whatever order, the store stays valid:
-- each token names one session, which carries that token, has a code exactly if it is captured
-- and an error exactly if it is in error, and no run has more than eight sessions.
pub run_calls-IsValid :
    (st : AuthSessionStore) (cs : List Call) → IsValid st → IsValid (run_calls st cs)
unfolding run_calls
run_calls-IsValid st [] v = v
run_calls-IsValid st (c ∷ cs) v = run_calls-IsValid (apply st c) cs (apply-IsValid st c v)
