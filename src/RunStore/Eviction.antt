-- ===== src/RunStore/Eviction.antt =====
-- What the creation of a run evicts (conformance/api/run_store.py).
use mathlib.Core.Path.{subst}
use conformance_suite_v.Base.{
  ℕ, suc, ◌≤◌, ◌<◌, String, ◌≡◌, refl, true, false, Option, none, some, is_some, List, arith,
  eq_iff, length, elem, Option-cases, inl, inr, if◌then◌else◌,
}
use conformance_suite_v.Base.Json.{Json}
use conformance_suite_v.Base.Dict.{Dict, get, put, All-get, get-put}
use conformance_suite_v.Base.Dict.Distinct.{elem-keys_where, Distinct-put}
use conformance_suite_v.Base.Dict.Size.{length-put_new}
use conformance_suite_v.RunStore.{
  RunRecord, RunStore, RunPlanStep, is_terminal, evicted, terminal_ids, finished_key,
  max_terminal_records, prune_terminal_records, new_record, create_run, insert_run,
}
use conformance_suite_v.RunStore.Invariant.{
  is_live, IsRecord, IsEntry, IsValid, length-prune, get-prune,
}
use conformance_suite_v.RunStore.Creation.{
  none_live, length-terminal, not_evicted, new_record-IsRecord, create_run_busy,
}
use conformance_suite_v.RunStore.History.{evicted_oldest}

-- One run ended, and no later than the other.
abbrev pub EndedBefore : RunRecord → RunRecord → Type 0
EndedBefore g s = (t : ℕ) × (u : ℕ) × (g.finished_at ≡ some t) × (s.finished_at ≡ some u) × (t ≤ u)

ended-key : (r : RunRecord) → is_some r.finished_at ≡ true → (t : ℕ) × (r.finished_at ≡ some t)
ended-key r h = elim (Option-cases r.finished_at) [ inl e ↦ absurd (cc) | inr (t, e) ↦ (t, e) ]

evicted-many :
    (runs : Dict RunRecord) (k : String)
    → elem k (evicted runs) ≡ true
    → max_terminal_records < length (terminal_ids runs)
unfolding evicted elem
evicted-many runs k h = ground arith

module _ (r : RunRecord) (st : RunStore) (v : IsValid st) (live : is_live r ≡ true)
    (e : IsRecord r.run_id r) (fresh : get st.runs r.run_id ≡ none) (idle : st.active_run_id ≡ none)
    (gone kept : String) (g s : RunRecord) (there : get st.runs gone ≡ some g)
    (lost : get (prune_terminal_records (put st.runs r.run_id r)) gone ≡ none)
    (stood : get st.runs kept ≡ some s)
    (stands : is_some (get (prune_terminal_records (put st.runs r.run_id r)) kept) ≡ true) where
  abbrev runs : Dict RunRecord
  runs = put st.runs r.run_id r

  get-after :
      (j : String)
      → get (prune_terminal_records runs) j ≡ (if elem j (evicted runs) then none else get runs j)
  get-after = get-prune runs (Distinct-put st.runs r.run_id r v.distinct)

  -- a stored run is not the new one
  get-before : (j : String) (x : RunRecord) → get st.runs j ≡ some x → get runs j ≡ some x
  get-before j x h = ground (arith, get-put st.runs r.run_id j r, eq_iff r.run_id j)

  gone-evicted : elem gone (evicted runs) ≡ true
  gone-evicted = ground (arith, get-after gone, get-before gone g there)

  kept-stays : elem kept (evicted runs) ≡ false
  kept-stays = ground (arith, get-after kept)

  over : (j : String) (x : RunRecord) → get st.runs j ≡ some x → is_live x ≡ false
  over j x h = ground (arith, none_live r st v live e fresh idle j)

  ended : (j : String) (x : RunRecord) → get st.runs j ≡ some x → is_some x.finished_at ≡ true
  ended j x h = (All-get IsEntry st.runs j x v.entries h).ended (ground (arith, over j x h))

  kept-terminal : elem kept (terminal_ids runs) ≡ true
  kept-terminal = ground (
    arith,
    elem-keys_where (λ (x : RunRecord). is_terminal x.status) runs kept
        (Distinct-put st.runs r.run_id r v.distinct),
    get-before kept s stood,
    over kept s stood,
  )

  new-stands : get (prune_terminal_records runs) r.run_id ≡ some r
  new-stands = ground (
    arith,
    get-after r.run_id,
    not_evicted r st v live e fresh idle,
    get-put st.runs r.run_id r.run_id r,
    eq_iff r.run_id r.run_id,
  )

  kept-same : get (prune_terminal_records runs) kept ≡ some s
  kept-same = ground (arith, get-after kept, kept-stays, get-before kept s stood)

  ended-before : EndedBefore g s
  ended-before =
      let (t, at_t) = ended-key g (ended gone g there) in
      let (u, at_u) = ended-key s (ended kept s stood) in
      let key = evicted_oldest runs gone kept gone-evicted kept-terminal kept-stays in
      (t, u, at_t, at_u, ordered t u at_t at_u key)
    where
      ordered :
          (t u : ℕ)
          → g.finished_at ≡ some t
          → s.finished_at ≡ some u
          → finished_key (get (put st.runs r.run_id r) gone)
            ≤ finished_key (get (put st.runs r.run_id r) kept)
          → t ≤ u
      ordered t u at_t at_u key = ground (arith, get-before gone g there, get-before kept s stood)

  length-after : length (prune_terminal_records runs) ≡ suc max_terminal_records
  length-after = omega (
    arith,
    length-prune runs (Distinct-put st.runs r.run_id r v.distinct),
    length-terminal r st v live e fresh idle,
    length-put_new st.runs r.run_id r fresh,
    evicted-many runs gone gone-evicted,
    v.bounded,
  )

insert_idle :
    (k : String) (now : ℕ) (steps : List RunPlanStep) (plan validation : Option Json)
    (st : RunStore)
    → st.active_run_id ≡ none
    → (create_run k now steps plan validation st).1.runs
      ≡ prune_terminal_records (put st.runs k (new_record k now steps plan validation))
unfolding create_run insert_run
insert_idle k now steps plan validation st idle = rw idle refl

-- When a run is created in a valid store under a fresh identifier, and a run that was stored before is
-- gone while another is still there, then the new run is stored, as a pending record; the one that is
-- gone was over; the other is unchanged, and is over too; the one that is gone ended no later than the
-- other; and ten runs that were stored before are left beside the new one.
pub create_run_evicts :
    (k : String) (now : ℕ) (steps : List RunPlanStep) (plan validation : Option Json)
    (st : RunStore) (gone kept : String) (g s : RunRecord)
    → IsValid st
    → get st.runs k ≡ none
    → get st.runs gone ≡ some g
    → get (create_run k now steps plan validation st).1.runs gone ≡ none
    → get st.runs kept ≡ some s
    → is_some (get (create_run k now steps plan validation st).1.runs kept) ≡ true
    → (get (create_run k now steps plan validation st).1.runs k
        ≡ some (new_record k now steps plan validation))
      × (is_terminal g.status ≡ true)
      × (get (create_run k now steps plan validation st).1.runs kept ≡ some s)
      × (is_terminal s.status ≡ true)
      × EndedBefore g s
      × (length (create_run k now steps plan validation st).1.runs ≡ 11)
create_run_evicts k now steps plan validation st gone kept g s v fresh there lost stood stands =
    elim (Option-cases st.active_run_id) [
      | inr (a, busy) ↦
          let same : get (create_run k now steps plan validation st).1.runs gone
              ≡ get st.runs gone =
            rw (create_run_busy k now steps plan validation st a busy) refl in
          absurd (cc)
      | inl idle ↦
          let r : RunRecord = new_record k now steps plan validation in
          let own = new_record-IsRecord k now steps plan validation in
          let same = insert_idle k now steps plan validation st idle in
          let lost' : get (prune_terminal_records (put st.runs k r)) gone ≡ none =
            subst (λ d. get d gone ≡ none) same lost in
          let stands' : is_some (get (prune_terminal_records (put st.runs k r)) kept) ≡ true =
            subst (λ d. is_some (get d kept) ≡ true) same stands in
          rw same (
            new-stands r st v refl own fresh idle gone kept g s there lost' stood stands',
            ground (
              arith,
              over r st v refl own fresh idle gone kept g s there lost' stood stands' gone g there,
            ),
            kept-same r st v refl own fresh idle gone kept g s there lost' stood stands',
            ground (
              arith,
              over r st v refl own fresh idle gone kept g s there lost' stood stands' kept s stood,
            ),
            ended-before r st v refl own fresh idle gone kept g s there lost' stood stands',
            length-after r st v refl own fresh idle gone kept g s there lost' stood stands',
          )
    ]
