-- ===== src/AuthSession/Replay.antt =====
-- Replay protection: a state token is resolved once.
use conformance_suite_v.Base.{
  ℕ, suc, ◌≤◌, String, ◌≡◌, refl, Bool, true, false, ◌&&◌, not, Option, none, some, List, [], ◌∷◌,
  is_ok, arith, str_eq, eq_iff, if◌then◌else◌, ◌⊎◌, Bool-cases, Option-cases, inl, inr,
}
use conformance_suite_v.Base.Dict.{get, has, get-put, get-del}
use conformance_suite_v.Base.Dict.Distinct.{elem-keys_where, get-del_all}
use conformance_suite_v.AuthSession.{
  AuthSession, AuthSessionStore, is_awaiting, owned_by, register, capture_code, capture_error,
  discard, discard_for_run, set_code, set_error, resolve_session, reset, new_session, resolve_state,
}
use conformance_suite_v.AuthSession.Invariant.{IsValid}
use conformance_suite_v.AuthSession.Calls.{
  Call, register_call, code_call, error_call, discard_run_call, discard_call, reset_call, apply,
  run_calls, apply-IsValid,
}

-- the session of the token `k` that was resolved as `a` is still as it was, or it was discarded
abbrev pub StillOrGone : String → AuthSession → AuthSessionStore → Type 0
StillOrGone k a st = (get st.sessions k ≡ some a) ⊎ (get st.sessions k ≡ none)

module _ (k : String) (a : AuthSession) (over : is_awaiting a.status ≡ false) where
  resolve_session-keeps :
      (s : String) (change : AuthSession → AuthSession) (st : AuthSessionStore)
      (o : Option AuthSession)
      → get st.sessions s ≡ o
      → get st.sessions k ≡ some a
      → get (resolve_session s change o st).1.sessions k ≡ some a
  unfolding resolve_session
  resolve_session-keeps s change st none e found = found
  resolve_session-keeps s change st (some b) e found =
      ground (arith, eq_iff s k, get-put st.sessions s k (change b))

  -- Whatever call comes, a session that is resolved is left as it was, or discarded.
  pub apply-resolved :
      (st : AuthSessionStore) (c : Call)
      → IsValid st
      → get st.sessions k ≡ some a
      → StillOrGone k a (apply st c)
  unfolding apply register capture_code capture_error discard discard_for_run reset get
  apply-resolved st (register_call r s g n) v found =
      let resolved = resolve_state s g in
      ground (arith, eq_iff resolved k, get-put st.sessions resolved k (new_session resolved r n))
  apply-resolved st (code_call s c n) v found =
      inl (resolve_session-keeps s (set_code c n) st (get st.sessions s) refl found)
  apply-resolved st (error_call s e d n) v found =
      inl (resolve_session-keeps s (set_error e d n) st (get st.sessions s) refl found)
  apply-resolved st (discard_run_call r) v found =
      rw get-del_all (ground (arith, elem-keys_where (owned_by r) st.sessions k v.distinct))
  apply-resolved st (discard_call r s) v found = ground (arith, eq_iff s k, get-del st.sessions s k)
  apply-resolved st reset_call v found = inr refl

-- no call of the history takes the session of `k` away
abbrev pub IsHeld : String → AuthSessionStore → List Call → Type 0
IsHeld k st [] = Unit
IsHeld k st (c ∷ cs) =
    (has st.sessions k ≡ true → has (apply st c).sessions k ≡ true) × IsHeld k (apply st c) cs

-- Once a token is resolved, its session keeps its code, its error and all else through every
-- later history of calls in which it is not discarded: a second redirect changes nothing.
pub run_calls-resolved :
    (k : String) (a : AuthSession) (st : AuthSessionStore) (cs : List Call)
    → is_awaiting a.status ≡ false
    → IsValid st
    → IsHeld k st cs
    → get st.sessions k ≡ some a
    → get (run_calls st cs).sessions k ≡ some a
unfolding run_calls
run_calls-resolved k a st [] over v held found = found
run_calls-resolved k a st (c ∷ cs) over v (h, held) found =
    run_calls-resolved k a (apply st c) cs over (apply-IsValid st c v) held
      (ground (arith, apply-resolved k a over st c v found, h))

-- the call is a redirect for `k`, and the store accepts it
resolves : String → AuthSessionStore → Call → Bool
resolves k st (code_call s c n) = str_eq s k && is_ok (capture_code s c n st).0
resolves k st (error_call s e d n) = str_eq s k && is_ok (capture_error s e d n st).0
resolves k st _ = false

-- how many redirects for `k` the store accepts in a history
pub times_resolved : String → AuthSessionStore → List Call → ℕ
times_resolved k st [] = 0
times_resolved k st (c ∷ cs) =
    let rest = times_resolved k (apply st c) cs in if resolves k st c then suc rest else rest

-- the session of `k` is resolved
abbrev is_over : Option AuthSession → Bool
is_over none = false
is_over (some a) = not (is_awaiting a.status)

resolves_none :
    (k : String) (st : AuthSessionStore) (c : Call)
    → is_over (get st.sessions k) ≡ true
    → resolves k st c ≡ false
unfolding resolves capture_code capture_error
resolves_none k st (code_call s c n) h = ground (arith, eq_iff s k)
resolves_none k st (error_call s e d n) h = ground (arith, eq_iff s k)
resolves_none k st _ h = refl

resolve_session-is_over :
    (s : String) (change : AuthSession → AuthSession) (st : AuthSessionStore)
    (o : Option AuthSession)
    → ((b : AuthSession) → is_awaiting (change b).status ≡ false)
    → is_ok (resolve_session s change o st).0 ≡ true
    → is_over (get (resolve_session s change o st).1.sessions s) ≡ true
unfolding resolve_session
resolve_session-is_over s change st none ends h = absurd (cc)
resolve_session-is_over s change st (some b) ends h =
    ground (arith, get-put st.sessions s s (change b), eq_iff s s, ends b)

resolves-is_over :
    (k : String) (st : AuthSessionStore) (c : Call)
    → resolves k st c ≡ true
    → is_over (get (apply st c).sessions k) ≡ true
unfolding resolves apply capture_code capture_error
resolves-is_over k st (code_call s c n) h =
    ground (
      arith,
      eq_iff s k,
      resolve_session-is_over s (set_code c n) st (get st.sessions s) (λ b. refl),
    )
resolves-is_over k st (error_call s e d n) h = ground (
  arith,
  eq_iff s k,
  resolve_session-is_over s (set_error e d n) st (get st.sessions s) (λ b. refl),
)
resolves-is_over k st _ h = absurd (cc)

apply-is_over :
    (k : String) (st : AuthSessionStore) (c : Call)
    → IsValid st
    → (has st.sessions k ≡ true → has (apply st c).sessions k ≡ true)
    → is_over (get st.sessions k) ≡ true
    → is_over (get (apply st c).sessions k) ≡ true
apply-is_over k st c v held over = elim (Option-cases (get st.sessions k)) [
  | inl e ↦ ground arith
  | inr (a, e) ↦ ground (arith, apply-resolved k a (ground arith) st c v e)
]

times_resolved-zero :
    (k : String) (st : AuthSessionStore) (cs : List Call)
    → IsValid st
    → IsHeld k st cs
    → is_over (get st.sessions k) ≡ true
    → times_resolved k st cs ≡ 0
unfolding times_resolved
times_resolved-zero k st [] v held over = refl
times_resolved-zero k st (c ∷ cs) v (h, held) over = rw (resolves_none k st c over) (
    times_resolved-zero k (apply st c) cs (apply-IsValid st c v) held
      (apply-is_over k st c v h over))

-- In any history of calls that discards no session of the token `k`, at most one redirect for `k`
-- is accepted.
pub times_resolved-le-one :
    (k : String) (st : AuthSessionStore) (cs : List Call)
    → IsValid st
    → IsHeld k st cs
    → times_resolved k st cs ≤ 1
unfolding times_resolved
times_resolved-le-one k st [] v held = omega arith
times_resolved-le-one k st (c ∷ cs) v (h, held) = elim (Bool-cases (resolves k st c)) [
  | inl now ↦
      rw
        (
          now,
          times_resolved-zero k (apply st c) cs (apply-IsValid st c v) held
              (resolves-is_over k st c now),
        )
        (omega arith)
  | inr later ↦ rw later (times_resolved-le-one k (apply st c) cs (apply-IsValid st c v) held)
]
