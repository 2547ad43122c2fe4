-- ===== src/Tests/Listing.antt =====
-- The browser actions of a run (conformance/api/run_store.py) in their order.
use conformance_suite_v.Base.{ℕ, String, ◌≡◌, refl, none, some, [], ◌∷◌, count_if}
use conformance_suite_v.Base.Dict.{get, values}
use conformance_suite_v.RunStore.{
  ParticipantAction, waiting, RunRecord, RunStore, running, is_waiting, insert_action, sort_actions,
  get_participant_actions,
}
use conformance_suite_v.RunStore.Listing.{IsOrdered, get_participant_actions-IsOrdered}

abbrev asked : String → ℕ → ParticipantAction
asked step_id now = record {
  step_id = step_id;
  url = "";
  status = waiting;
  created_at = now;
  completed_at = none;
}

abbrev busy : RunRecord
busy = record {
  run_id = "r";
  status = running;
  created_at = 1;
  started_at = some 2;
  finished_at = none;
  result = none;
  error = none;
  participant_actions = ("b", asked "b" 7) ∷ ("c", asked "c" 5) ∷ ("a", asked "a" 7) ∷ [];
  participant_action = some (asked "c" 5);
  planned_steps = [];
  plan_snapshot = none;
  validation_result = none;
}

abbrev store : RunStore
store = record { runs = ("r", busy) ∷ []; active_run_id = some "r" }

listed : get_participant_actions "r" store ≡ asked "c" 5 ∷ asked "a" 7 ∷ asked "b" 7 ∷ []
unfolding get_participant_actions sort_actions insert_action get values
listed = refl

stored : get store.runs "r" ≡ some busy
unfolding get
stored = refl

get_participant_actions-IsOrdered_case :
    IsOrdered (get_participant_actions "r" store)
    × (count_if is_waiting (get_participant_actions "r" store)
        ≡ count_if is_waiting (values busy.participant_actions))
get_participant_actions-IsOrdered_case =
    get_participant_actions-IsOrdered "r" store busy is_waiting stored
