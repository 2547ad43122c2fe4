-- ===== src/RunStore/Gone.antt =====
-- A run that is not stored stays so, unless it is created (conformance/api/run_store.py).
use conformance_suite_v.Base.{
  ℕ, String, ◌≡◌, refl, false, Option, none, some, arith, eq_iff, str_eq, Result, ok, err,
}
use conformance_suite_v.Base.Dict.{get, put, get-put}
use conformance_suite_v.Base.Dict.Distinct.{get-del_all}
use conformance_suite_v.RunStore.{
  RunRecord, RunStore, RunStoreError, evicted, prune_terminal_records, insert_run, update_run,
  finish_run, set_participant_action, add_action, clear_active, key_error,
}

module _ (st : RunStore) (k : String) (missing : get st.runs k ≡ none) where
  -- what a stored run becomes is written under its own identifier
  put_gone :
      (j : String) (s t : RunRecord) → get st.runs j ≡ some s → get (put st.runs j t) k ≡ none
  put_gone j s t h = ground (arith, eq_iff j k, get-put st.runs j k t)

  pub update_run_gone :
      (j : String) (change : RunRecord → RunRecord) → get (update_run j change st).runs k ≡ none
  unfolding update_run
  update_run_gone j change = go (get st.runs j) refl
    where
      go :
          (o : Option RunRecord)
          → get st.runs j ≡ o
          → get
              (elim o as (λ x. RunStore) [
                | none ↦ st
                | some s ↦ record st { runs = put st.runs j (change s) }
              ]).runs
              k
            ≡ none
      go none e = missing
      go (some s) e = put_gone j s (change s) e

  pub finish_run_gone :
      (j : String) (change : RunRecord → RunRecord) → get (finish_run j change st).runs k ≡ none
  unfolding finish_run
  finish_run_gone j change = go (get st.runs j) refl
    where
      go :
          (o : Option RunRecord)
          → get st.runs j ≡ o
          → get
              (elim o as (λ x. RunStore) [
                | none ↦ st
                | some s ↦ record {
                  runs = put st.runs j (change s);
                  active_run_id = clear_active j st.active_run_id;
                }
              ]).runs
              k
            ≡ none
      go none e = missing
      go (some s) e = put_gone j s (change s) e

  pub set_participant_action_gone :
      (j step_id url : String) (now : ℕ)
      → get (set_participant_action j step_id url now st).1.runs k ≡ none
  unfolding set_participant_action
  set_participant_action_gone j step_id url now = go (get st.runs j) refl
    where
      go :
          (o : Option RunRecord)
          → get st.runs j ≡ o
          → get
              (elim o as (λ x. Result RunStoreError (Unit {0}) × RunStore) [
                | none ↦ (err (key_error j), st)
                | some s ↦
                    (ok tt, record st { runs = put st.runs j (add_action step_id url now s) })
              ]).1.runs
              k
            ≡ none
      go none e = missing
      go (some s) e = put_gone j s (add_action step_id url now s) e

  pub insert_run_gone :
      (new : RunRecord)
      → str_eq new.run_id k ≡ false
      → (o : Option String) → get (insert_run new o st).1.runs k ≡ none
  unfolding insert_run prune_terminal_records
  insert_run_gone new other (some a) = missing
  insert_run_gone new other none =
      let runs = put st.runs new.run_id new in
      ground (arith, get-del_all (evicted runs) runs k, get-put st.runs new.run_id k new)
