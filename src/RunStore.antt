-- ===== src/RunStore.antt =====
-- conformance/api/run_store.py: the store of conformance runs, one of which may be active. Each
-- method runs under one lock, so it is a function on the store. The clock and the identifier of
-- `uuid.uuid4()` are arguments, a time is a number, and a snapshot, which the source copies, is
-- the value itself.
pub mod Invariant
pub mod Creation
pub mod Changes
pub mod History
pub mod Eviction
pub mod Gone
pub mod Outcome
pub mod Listing
use conformance_suite_v.Base.{
  ℕ, suc, zero, ◌-◌, String, Bool, true, false, not, ◌&&◌, ◌||◌, Option, none, some, List, [], ◌∷◌,
  Result, ok, err, ltb, leb, str_eq, ◌==◌, if◌then◌else◌, length, filter,
}
use conformance_suite_v.Base.Json.{Json}
use conformance_suite_v.Base.Sort.{sort_by, take}
use conformance_suite_v.Base.Text.{text_leb}
use conformance_suite_v.Base.Dict.{Dict, get, put, del, has, values}
use conformance_suite_v.Base.Dict.Distinct.{keys_where, del_all}

pub data RunStatus : Type 0 where
  pending running completed failed : RunStatus

pub data ActionStatus : Type 0 where
  waiting done : ActionStatus

pub record ParticipantAction : Type 0 where
  pub step_id : String
  pub url : String
  pub status : ActionStatus
  pub created_at : ℕ
  pub completed_at : Option ℕ

pub record RunPlanStep : Type 0 where
  pub step_id : String
  pub name : String
  pub kind : String
  pub group : Option String
  pub phase : Option String
  pub mandatory : Bool
  pub optional : Bool
  pub order : ℕ

pub record RunRecord : Type 0 where
  pub run_id : String
  pub status : RunStatus
  pub created_at : ℕ
  pub started_at : Option ℕ
  pub finished_at : Option ℕ
  pub result : Option Json
  pub error : Option String
  pub participant_actions : Dict ParticipantAction
  pub participant_action : Option ParticipantAction
  pub planned_steps : List RunPlanStep
  pub plan_snapshot : Option Json
  pub validation_result : Option Json

pub record RunStore : Type 0 where
  pub runs : Dict RunRecord
  pub active_run_id : Option String

-- `RunConflictError`, and the `KeyError` of `self._runs[run_id]`
pub data RunStoreError : Type 0 where
  conflict : String → RunStoreError
  key_error : String → RunStoreError

abbrev pub max_terminal_records : ℕ
max_terminal_records = 10

abbrev pub empty : RunStore
empty = record { runs = []; active_run_id = none }

abbrev pub is_terminal : RunStatus → Bool
is_terminal completed = true
is_terminal failed = true
is_terminal _ = false

abbrev pub is_waiting : ParticipantAction → Bool
is_waiting a = elim a.status [ waiting ↦ true | done ↦ false ]

-- `(a.created_at, a.step_id) <= (b.created_at, b.step_id)`
abbrev pub action_leb : ParticipantAction → ParticipantAction → Bool
action_leb a b =
    if a.created_at == b.created_at
    then text_leb a.step_id b.step_id
    else leb a.created_at b.created_at

-- `min(actions, key=…)`: the first of the least
unfoldable pub oldest : ParticipantAction → List ParticipantAction → ParticipantAction
oldest a [] = a
oldest a (b ∷ rest) = oldest (if action_leb a b then a else b) rest

abbrev min_action : List ParticipantAction → Option ParticipantAction
min_action [] = none
min_action (a ∷ rest) = some (oldest a rest)

-- `_first_pending_action_locked`
unfoldable pub first_pending_action : RunRecord → Option ParticipantAction
first_pending_action record' = min_action (filter is_waiting (values record'.participant_actions))

-- `_sync_legacy_participant_action_locked`
abbrev pub sync_legacy : RunRecord → RunRecord
sync_legacy r = record r { participant_action = first_pending_action r }

-- `finished_at or datetime.min`: a time that is missing sorts before every time
abbrev pub finished_key : Option RunRecord → ℕ
finished_key none = 0
finished_key (some r) = elim r.finished_at [ none ↦ 0 | some t ↦ suc t ]

abbrev pub terminal_ids : Dict RunRecord → List String
terminal_ids = keys_where (λ r. is_terminal r.status)

-- the identifiers that `_prune_terminal_records_locked` deletes
unfoldable pub evicted : Dict RunRecord → List String
evicted runs =
    let ids = terminal_ids runs in
    if leb (length ids) max_terminal_records
    then []
    else take (length ids - max_terminal_records) (sort_by (λ k. finished_key (get runs k)) ids)

-- `_prune_terminal_records_locked`
unfoldable pub prune_terminal_records : Dict RunRecord → Dict RunRecord
prune_terminal_records runs = del_all (evicted runs) runs

abbrev pub new_record : String → ℕ → List RunPlanStep → Option Json → Option Json → RunRecord
new_record run_id now planned_steps plan_snapshot validation_result = record {
  run_id = run_id;
  status = pending;
  created_at = now;
  started_at = none;
  finished_at = none;
  result = none;
  error = none;
  participant_actions = [];
  participant_action = none;
  planned_steps = planned_steps;
  plan_snapshot = plan_snapshot;
  validation_result = validation_result;
}

pub insert_run : RunRecord → Option String → RunStore → Result RunStoreError RunRecord × RunStore
insert_run r (some active) st = (err (conflict active), st)
insert_run r none st = (
  ok r,
  record { runs = prune_terminal_records (put st.runs r.run_id r); active_run_id = some r.run_id },
)

-- `run_id` is what `uuid.uuid4().hex` returns
unfoldable pub create_run :
    String
    → ℕ
    → List RunPlanStep
    → Option Json
    → Option Json
    → RunStore
    → Result RunStoreError RunRecord × RunStore
unfolding insert_run
create_run run_id now planned_steps plan_snapshot validation_result st =
    insert_run (new_record run_id now planned_steps plan_snapshot validation_result)
      st.active_run_id st

abbrev pub snapshot_record : RunRecord → RunRecord
snapshot_record r = record r { participant_action = first_pending_action r }

unfoldable pub get_run : String → RunStore → Option RunRecord
get_run run_id st = elim (get st.runs run_id) [ none ↦ none | some r ↦ some (snapshot_record r) ]

-- the methods that change one record if it is there, and do nothing if it is not
unfoldable pub update_run : String → (RunRecord → RunRecord) → RunStore → RunStore
update_run run_id change st = elim (get st.runs run_id) [
  | none ↦ st
  | some r ↦ record st { runs = put st.runs run_id (change r) }
]

abbrev pub start_record : ℕ → RunRecord → RunRecord
start_record now r = record r { status = running; started_at = some now }

unfoldable pub mark_running : String → ℕ → RunStore → RunStore
unfolding update_run
mark_running run_id now st = update_run run_id (start_record now) st

-- `if self._active_run_id == run_id: self._active_run_id = None`
abbrev pub clear_active : String → Option String → Option String
clear_active run_id none = none
clear_active run_id (some active) = if str_eq active run_id then none else some active

abbrev pub complete_record : ℕ → Json → RunRecord → RunRecord
complete_record now result r = record r {
  status = completed;
  finished_at = some now;
  result = some result;
  participant_actions = [];
  participant_action = none;
}

abbrev pub fail_record : ℕ → String → RunRecord → RunRecord
fail_record now reason r = record r {
  status = failed;
  finished_at = some now;
  error = some reason;
  participant_actions = [];
  participant_action = none;
}

-- the two ends of a run differ in the record that they write
unfoldable pub finish_run : String → (RunRecord → RunRecord) → RunStore → RunStore
finish_run run_id change st = elim (get st.runs run_id) [
  | none ↦ st
  | some r ↦ record {
    runs = put st.runs run_id (change r);
    active_run_id = clear_active run_id st.active_run_id;
  }
]

unfoldable pub mark_completed : String → ℕ → Json → RunStore → RunStore
unfolding finish_run
mark_completed run_id now result st = finish_run run_id (complete_record now result) st

unfoldable pub mark_failed : String → ℕ → String → RunStore → RunStore
unfolding finish_run
mark_failed run_id now reason st = finish_run run_id (fail_record now reason) st

abbrev pub add_action : String → String → ℕ → RunRecord → RunRecord
add_action step_id url now r = sync_legacy (record r {
  participant_actions = put r.participant_actions step_id (record {
    step_id = step_id;
    url = url;
    status = waiting;
    created_at = now;
    completed_at = none;
  });
})

unfoldable pub set_participant_action :
    String → String → String → ℕ → RunStore → Result RunStoreError (Unit {0}) × RunStore
set_participant_action run_id step_id url now st = elim (get st.runs run_id) [
  | none ↦ (err (key_error run_id), st)
  | some r ↦ (ok tt, record st { runs = put st.runs run_id (add_action step_id url now r) })
]

abbrev pub complete_action : String → ℕ → RunRecord → Option ParticipantAction → RunRecord
complete_action step_id now r none = r
complete_action step_id now r (some a) = sync_legacy (record r {
  participant_actions =
      put r.participant_actions step_id (record a { status = done; completed_at = some now });
})

-- with no step the actions are discarded, with a step that one is completed
abbrev pub clear_actions : Option String → ℕ → RunRecord → RunRecord
clear_actions none now r = record r { participant_actions = []; participant_action = none }
clear_actions (some step_id) now r =
    complete_action step_id now r (get r.participant_actions step_id)

unfoldable pub clear_participant_action : String → Option String → ℕ → RunStore → RunStore
unfolding update_run
clear_participant_action run_id step_id now st = update_run run_id (clear_actions step_id now) st

unfoldable pub get_participant_action : String → RunStore → Option ParticipantAction
get_participant_action run_id st = elim (get st.runs run_id) [
  | none ↦ none
  | some r ↦ first_pending_action r
]

-- `sorted(actions, key=lambda item: (item.created_at, item.step_id))`
unfoldable pub insert_action : ParticipantAction → List ParticipantAction → List ParticipantAction
insert_action a [] = a ∷ []
insert_action a (b ∷ bs) =
    let rest = insert_action a bs in if action_leb a b then a ∷ b ∷ bs else b ∷ rest

unfoldable pub sort_actions : List ParticipantAction → List ParticipantAction
unfolding insert_action
sort_actions [] = []
sort_actions (a ∷ actions) = insert_action a (sort_actions actions)

unfoldable pub get_participant_actions : String → RunStore → List ParticipantAction
unfolding sort_actions
get_participant_actions run_id st = elim (get st.runs run_id) [
  | none ↦ []
  | some r ↦ sort_actions (values r.participant_actions)
]

unfoldable pub reset : RunStore → RunStore
reset st = empty
