-- ===== src/RunStore/Invariant.antt =====
-- What holds of the run store between two calls.
use conformance_suite_v.Base.{
  suc, ◌+◌, ◌-◌, ◌≤◌, String, ◌≡◌, refl, Bool, true, false, not, Option, none, some, is_some, All,
  arith, str_eq, length, elem, if◌then◌else◌,
}
use conformance_suite_v.Base.Sort.{
  sort_by, length-sort_by, Distinct-sort_by, elem-sort_by, elem-take, Distinct-take, length-take_le,
}
use conformance_suite_v.Base.Dict.{Dict, get, keys}
use conformance_suite_v.Base.Dict.Distinct.{Distinct, passes, elem-keys_where, get-del_all}
use conformance_suite_v.Base.Dict.Size.{length-del_all, Distinct-keys_where, keys_where-AreKeys}
use conformance_suite_v.RunStore.{
  RunRecord, RunStore, is_terminal, empty, evicted, prune_terminal_records, terminal_ids,
  finished_key, first_pending_action, max_terminal_records,
}

abbrev pub is_live : RunRecord → Bool
is_live r = not (is_terminal r.status)

abbrev pub is_active : Option String → String → Bool
is_active none k = false
is_active (some a) k = str_eq a k

-- A record is stored under its identifier, its alias is its oldest pending action, and it has an
-- end time and no action once it is over.
pub record IsRecord (k : String) (r : RunRecord) : Type 0 where
  pub own_id : r.run_id ≡ k
  pub alias : r.participant_action ≡ first_pending_action r
  pub ended : is_terminal r.status ≡ true → is_some r.finished_at ≡ true

abbrev pub IsEntry : String × RunRecord → Type 0
IsEntry (k, r) = IsRecord k r

pub record IsValid (st : RunStore) : Type 0 where
  pub distinct : Distinct (keys st.runs)
  pub entries : All IsEntry st.runs
  -- the records that are not over are the active run
  pub live_iff : (k : String) → passes is_live (get st.runs k) ≡ is_active st.active_run_id k
  pub bounded : length st.runs ≤ suc max_terminal_records

pub empty-IsValid : IsValid empty
unfolding keys get
empty-IsValid = record { distinct = tt; entries = tt; live_iff = λ k. refl; bounded = omega arith }

module _ (runs : Dict RunRecord) (d : Distinct (keys runs)) where
  evicted_keys : (k : String) → elem k (evicted runs) ≡ true → elem k (terminal_ids runs) ≡ true
  unfolding evicted elem
  evicted_keys k h =
      let ids = terminal_ids runs in
      let key = λ (i : String). finished_key (get runs i) in
      ground (
        arith,
        elem-take k (length ids - max_terminal_records) (sort_by key ids),
        elem-sort_by key k ids,
      )

  Distinct-evicted : Distinct (evicted runs)
  unfolding evicted
  Distinct-evicted =
      let ids = terminal_ids runs in
      let key = λ (i : String). finished_key (get runs i) in
      ground (
        arith,
        Distinct-take (length ids - max_terminal_records) (sort_by key ids)
            (Distinct-sort_by key ids (Distinct-keys_where (λ r. is_terminal r.status) runs d)),
      )

  length-evicted : length (evicted runs) ≡ length (terminal_ids runs) - max_terminal_records
  unfolding evicted
  length-evicted =
      let ids = terminal_ids runs in
      let key = λ (i : String). finished_key (get runs i) in
      ground (
        arith,
        length-take_le (length ids - max_terminal_records) (sort_by key ids),
        length-sort_by key ids,
      )

  -- only records that are over are deleted
  pub evicted-terminal :
      (k : String)
      → elem k (evicted runs) ≡ true
      → passes (λ r. is_terminal r.status) (get runs k) ≡ true
  evicted-terminal k h =
      ground (arith, evicted_keys k h, elem-keys_where (λ r. is_terminal r.status) runs k d)

  pub length-prune :
      length (prune_terminal_records runs) + (length (terminal_ids runs) - max_terminal_records)
      ≡ length runs
  unfolding prune_terminal_records
  length-prune = omega (
    arith,
    length-evicted,
    length-del_all (evicted runs) runs Distinct-evicted d
        (λ k h. keys_where-AreKeys (λ r. is_terminal r.status) runs d k (evicted_keys k h)),
  )

  pub get-prune :
      (k : String)
      → get (prune_terminal_records runs) k ≡ (if elem k (evicted runs) then none else get runs k)
  unfolding prune_terminal_records
  get-prune k = get-del_all (evicted runs) runs k
