-- ===== src/RunStore/Creation.antt =====
-- The creation of a run keeps the invariant of the run store.
use conformance_suite_v.Base.{
  ℕ, String, ◌≡◌, refl, true, false, Option, none, some, List, [], ◌∷◌, All, arith, eq_iff, filter,
  length, elem, count_if, ok, err,
}
use conformance_suite_v.Base.Json.{Json}
use conformance_suite_v.Base.Dict
use conformance_suite_v.Base.Dict.{
  Dict, get, put, has, keys, All-put, All-get, get-put, count_if-put_new, values,
}
use conformance_suite_v.Base.Dict.Distinct.{
  Distinct, Distinct-put, Distinct-del_all, del_all, passes, elem-keys, length-keys_where,
}
use conformance_suite_v.Base.Dict.Size.{length-put_new}
use conformance_suite_v.RunStore.{
  RunRecord, RunStore, RunPlanStep, is_terminal, evicted, prune_terminal_records, terminal_ids,
  first_pending_action, new_record, insert_run, create_run, conflict,
}
use conformance_suite_v.RunStore.Invariant.{
  is_live, IsRecord, IsEntry, IsValid, evicted-terminal, length-prune, get-prune,
}

-- a list in which no record is live has only records that are over
all_terminal :
    (d : Dict RunRecord)
    → Distinct (keys d)
    → ((k : String) → passes is_live (get d k) ≡ false)
    → count_if (λ e. is_terminal e.1.status) d ≡ length d
unfolding count_if get keys elem
all_terminal [] dd h = refl
all_terminal ((i, r) ∷ d) dd h = ground (
  arith,
  eq_iff i i,
  h i,
  all_terminal d dd.1 (λ k. ground (arith, eq_iff i k, elem-keys d k, h k)),
)

All-del_all : (ks : List String) (d : Dict RunRecord) → All IsEntry d → All IsEntry (del_all ks d)
unfolding del_all
All-del_all [] d h = h
All-del_all (k ∷ ks) d h = All-del_all ks (Dict.del d k) (Dict.All-del IsEntry d k h)

module _ (r : RunRecord) (st : RunStore) (v : IsValid st) (live : is_live r ≡ true)
    (e : IsRecord r.run_id r) (fresh : get st.runs r.run_id ≡ none)
    (idle : st.active_run_id ≡ none) where
  abbrev pub with_new : Dict RunRecord
  with_new = put st.runs r.run_id r

  pub none_live : (k : String) → passes is_live (get st.runs k) ≡ false
  none_live k = ground (arith, v.live_iff k)

  pub length-terminal : length (terminal_ids with_new) ≡ length st.runs
  length-terminal = ground (
    arith,
    length-keys_where (λ (x : RunRecord). is_terminal x.status) (put st.runs r.run_id r),
    count_if-put_new (λ (x : String × RunRecord). is_terminal x.1.status) st.runs r.run_id r fresh,
    all_terminal st.runs v.distinct none_live,
  )

  pub not_evicted : elem r.run_id (evicted with_new) ≡ false
  not_evicted = ground (
    arith,
    eq_iff r.run_id r.run_id,
    evicted-terminal (put st.runs r.run_id r) (Distinct-put st.runs r.run_id r v.distinct) r.run_id,
    get-put st.runs r.run_id r.run_id r,
  )

  insert_run-IsValid : IsValid (insert_run r none st).1
  unfolding insert_run prune_terminal_records
  insert_run-IsValid =
      let d = Distinct-put st.runs r.run_id r v.distinct in
      record {
        distinct = Distinct-del_all (evicted (put st.runs r.run_id r)) (put st.runs r.run_id r) d;
        entries =
            All-del_all (evicted (put st.runs r.run_id r)) (put st.runs r.run_id r)
              (All-put IsEntry st.runs r.run_id r e v.entries);
        live_iff = λ k. ground (
          arith,
          eq_iff r.run_id k,
          get-prune (put st.runs r.run_id r) d k,
          get-put st.runs r.run_id k r,
          not_evicted,
          none_live k,
        );
        bounded = omega (
          arith,
          length-prune (put st.runs r.run_id r) d,
          length-terminal,
          length-put_new st.runs r.run_id r fresh,
          v.bounded,
        );
      }

insert_run_any-IsValid :
    (r : RunRecord) (st : RunStore)
    → IsValid st
    → is_live r ≡ true
    → IsRecord r.run_id r
    → get st.runs r.run_id ≡ none
    → (active : Option String) → st.active_run_id ≡ active
    → IsValid (insert_run r active st).1
unfolding insert_run
insert_run_any-IsValid r st v live e fresh none idle = insert_run-IsValid r st v live e fresh idle
insert_run_any-IsValid r st v live e fresh (some a) busy = v

pub new_record-IsRecord :
    (run_id : String) (now : ℕ) (steps : List RunPlanStep) (plan validation : Option Json)
    → IsRecord run_id (new_record run_id now steps plan validation)
unfolding first_pending_action values filter
new_record-IsRecord run_id now steps plan validation = record {
  own_id = refl;
  alias = refl;
  ended = λ h. absurd (cc);
}

pub create_run-IsValid :
    (run_id : String) (now : ℕ) (steps : List RunPlanStep) (plan validation : Option Json)
    (st : RunStore)
    → get st.runs run_id ≡ none
    → IsValid st
    → IsValid (create_run run_id now steps plan validation st).1
unfolding create_run
create_run-IsValid run_id now steps plan validation st fresh v =
    insert_run_any-IsValid (new_record run_id now steps plan validation) st v refl
      (new_record-IsRecord run_id now steps plan validation) fresh st.active_run_id refl

-- while a run holds the slot, no other is created
pub create_run_busy :
    (run_id : String) (now : ℕ) (steps : List RunPlanStep) (plan validation : Option Json)
    (st : RunStore) (active : String)
    → st.active_run_id ≡ some active
    → create_run run_id now steps plan validation st ≡ (err (conflict active), st)
unfolding create_run insert_run
create_run_busy run_id now steps plan validation st active busy = rw busy

-- a run that is created holds the slot, and its record is what the call returned
pub create_run_idle :
    (run_id : String) (now : ℕ) (steps : List RunPlanStep) (plan validation : Option Json)
    (st : RunStore)
    → st.active_run_id ≡ none
    → ((create_run run_id now steps plan validation st).0
        ≡ ok (new_record run_id now steps plan validation))
      × ((create_run run_id now steps plan validation st).1.active_run_id ≡ some run_id)
unfolding create_run insert_run
create_run_idle run_id now steps plan validation st idle = (rw idle, rw idle)
