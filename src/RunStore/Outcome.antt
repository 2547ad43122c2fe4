-- ===== src/RunStore/Outcome.antt =====
-- What the calls of other threads leave of a run (conformance/api/run_store.py).
use conformance_suite_v.Base.{
  ℕ, String, ◌≡◌, Bool, true, not, Option, none, some, List, [], ◌∷◌, str_eq,
}
use conformance_suite_v.Base.Json.{Json}
use conformance_suite_v.Base.Dict.{get, keys}
use conformance_suite_v.Base.Dict.Distinct.{Distinct}
use conformance_suite_v.RunStore.{
  RunRecord, RunStore, RunPlanStep, is_terminal, create_run, mark_running, mark_completed,
  mark_failed, set_participant_action, clear_participant_action,
}

-- One call of a method that changes the store, by any thread and for any run; `reset`, which nothing of
-- the application calls, is left out. The identifier of a creation is what `uuid.uuid4().hex` returns.
pub data StoreCall : Type 0 where
  create : String → ℕ → List RunPlanStep → Option Json → Option Json → StoreCall
  start : String → ℕ → StoreCall
  complete : String → ℕ → Json → StoreCall
  fail : String → ℕ → String → StoreCall
  ask : String → String → String → ℕ → StoreCall
  answer : String → Option String → ℕ → StoreCall

unfoldable pub call_store : StoreCall → RunStore → RunStore
unfolding create_run mark_running mark_completed mark_failed set_participant_action
    clear_participant_action
call_store (create k now steps plan validation) st = (create_run k now steps plan validation st).1
call_store (start k now) st = mark_running k now st
call_store (complete k now result) st = mark_completed k now result st
call_store (fail k now reason) st = mark_failed k now reason st
call_store (ask k step_id url now) st = (set_participant_action k step_id url now st).1
call_store (answer k step_id now) st = clear_participant_action k step_id now st

unfoldable pub call_all : List StoreCall → RunStore → RunStore
unfolding call_store
call_all [] st = st
call_all (call ∷ calls) st = call_all calls (call_store call st)

-- The call neither creates this run nor marks it as running, completed or failed.
abbrev pub leaves : String → StoreCall → Bool
leaves k (create j _ _ _ _) = not (str_eq j k)
leaves k (start j _) = not (str_eq j k)
leaves k (complete j _ _) = not (str_eq j k)
leaves k (fail j _ _) = not (str_eq j k)
leaves k (ask _ _ _ _) = true
leaves k (answer _ _ _) = true

-- What a run that was stored as `r` is later: the same as to its status, its times, its result and its
-- error, or gone, if it was over.
abbrev pub IsKept : RunRecord → Option RunRecord → Type 0
IsKept r none = is_terminal r.status ≡ true
IsKept r (some s) =
    (s.status ≡ r.status)
    × (s.started_at ≡ r.started_at)
    × (s.finished_at ≡ r.finished_at)
    × (s.result ≡ r.result)
    × (s.error ≡ r.error)

-- what a call does to one run, and that each run stays stored once
record Keeps (k : String) (r : RunRecord) (t : RunStore) : Type 0 where
  kept : IsKept r (get t.runs k)
  once : Distinct (keys t.runs)
