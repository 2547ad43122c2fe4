-- ===== src/Tests/Runs.antt =====
-- The run store (conformance/api/run_store.py) in use.
use conformance_suite_v.Base.{
  ℕ, String, ◌≡◌, refl, true, false, none, some, [], ◌∷◌, is_ok, ◌↔◌, elem, List, All, filter,
  length, arith,
}
use conformance_suite_v.Base.Json.{Json}
use conformance_suite_v.Base.Sort.{sort_by}
use conformance_suite_v.Base.Dict.{Dict, del, get, put, keys, values}
use conformance_suite_v.Base.Dict.Distinct.{keys_where, del_all, passes}
use conformance_suite_v.RunStore.{
  RunRecord, RunStore, completed, empty, new_record, complete_record, create_run, mark_running,
  mark_completed, set_participant_action, evicted, prune_terminal_records, terminal_ids,
  is_terminal, finished_key, first_pending_action, oldest,
}
use conformance_suite_v.RunStore.Invariant.{is_live, IsRecord, IsValid}
use conformance_suite_v.RunStore.History.{
  create, start, complete, Reach, here, next, Reach-IsValid, create_run_iff,
}
use conformance_suite_v.RunStore.Eviction.{EndedBefore, create_run_evicts}
use conformance_suite_v.RunStore.Outcome.{StoreCall}

abbrev created : RunStore
created = record { runs = ("a", new_record "a" 1 [] none none) ∷ []; active_run_id = some "a" }

abbrev ended : RunStore
ended = record {
  runs =
      (
        "a",
        complete_record 9 Json.null (record (new_record "a" 1 [] none none) {
          status = conformance_suite_v.RunStore.RunStatus.running;
          started_at = some 2;
        }),
      )
      ∷ [];
  active_run_id = none;
}

life :
    mark_completed "a" 9 Json.null (mark_running "a" 2 (create_run "a" 1 [] none none empty).1)
    ≡ ended
unfolding create_run mark_running mark_completed prune_terminal_records evicted keys_where del_all
    get put
life = refl

Reach-ended :
    Reach empty
      (mark_completed "a" 9 Json.null (mark_running "a" 2 (create_run "a" 1 [] none none empty).1))
unfolding create_run mark_running prune_terminal_records evicted keys_where del_all get put
Reach-ended =
    next (next (next here (create "a" 1 [] none none refl)) (start "a" 2 refl))
      (complete "a" 9 Json.null refl)

Reach-IsValid_example :
    IsValid
      (mark_completed "a" 9 Json.null (mark_running "a" 2 (create_run "a" 1 [] none none empty).1))
Reach-IsValid_example = Reach-IsValid Reach-ended

ended-IsValid : IsValid ended
ended-IsValid = rw life at Reach-IsValid_example

create_run_iff_example :
    (is_ok (create_run "b" 10 [] none none ended).0 ≡ true)
    ↔ ((j : String) → passes is_live (get ended.runs j) ≡ false)
create_run_iff_example = create_run_iff "b" 10 [] none none ended ended-IsValid

abbrev first : RunRecord
first = complete_record 9 Json.null (record (new_record "a" 1 [] none none) {
  status = conformance_suite_v.RunStore.RunStatus.running;
  started_at = some 2;
})

-- another run is created, asks for its participant, ends and is followed by a third
abbrev later_calls : List StoreCall
later_calls =
    StoreCall.create "b" 10 [] none none
    ∷ StoreCall.start "b" 11
    ∷ StoreCall.ask "b" "consent" "https://bank" 12
    ∷ StoreCall.answer "a" none 13
    ∷ StoreCall.fail "b" 14 "no answer"
    ∷ StoreCall.create "c" 15 [] none none
    ∷ []

abbrev over : String → ℕ → RunRecord
over k t = complete_record t Json.null (new_record k 1 [] none none)

-- eleven runs that are over; the fourth ended first
abbrev many : Dict RunRecord
many =
    ("a", over "a" 20)
    ∷ ("b", over "b" 21)
    ∷ ("c", over "c" 22)
    ∷ ("d", over "d" 5)
    ∷ ("e", over "e" 24)
    ∷ ("f", over "f" 25)
    ∷ ("g", over "g" 26)
    ∷ ("h", over "h" 27)
    ∷ ("i", over "i" 28)
    ∷ ("j", over "j" 29)
    ∷ ("k", over "k" 30)
    ∷ []

evicts_first_ended : evicted many ≡ "d" ∷ []
unfolding evicted keys_where sort_by get
evicts_first_ended = refl

over-IsRecord : (k : String) (t : ℕ) → IsRecord k (over k t)
unfolding first_pending_action values filter
over-IsRecord k t = record { own_id = refl; alias = refl; ended = λ h. refl }

over-passes :
    (d : Dict RunRecord)
    → All (λ (e : String × RunRecord). is_live e.1 ≡ false) d
    → (k : String) → passes is_live (get d k) ≡ false
unfolding get
over-passes [] h k = refl
over-passes ((j, r) ∷ d) h k = ground (arith, over-passes d h.1 k)

abbrev full : RunStore
full = record { runs = many; active_run_id = none }

full-IsValid : IsValid full
unfolding keys elem
full-IsValid = record {
  distinct =
      (refl, (refl, (refl, (refl, (refl, (refl, (refl, (refl, (refl, (refl, (refl, tt)))))))))));
  entries = (
    over-IsRecord "a" 20,
    (
      over-IsRecord "b" 21,
      (
        over-IsRecord "c" 22,
        (
          over-IsRecord "d" 5,
          (
            over-IsRecord "e" 24,
            (
              over-IsRecord "f" 25,
              (
                over-IsRecord "g" 26,
                (
                  over-IsRecord "h" 27,
                  (over-IsRecord "i" 28, (over-IsRecord "j" 29, (over-IsRecord "k" 30, tt))),
                ),
              ),
            ),
          ),
        ),
      ),
    ),
  );
  live_iff =
      over-passes many
        (refl, (refl, (refl, (refl, (refl, (refl, (refl, (refl, (refl, (refl, (refl, tt)))))))))));
  bounded = omega arith;
}

create_run_evicts_example :
    (get (create_run "l" 40 [] none none full).1.runs "l" ≡ some (new_record "l" 40 [] none none))
    × (is_terminal (over "d" 5).status ≡ true)
    × (get (create_run "l" 40 [] none none full).1.runs "a" ≡ some (over "a" 20))
    × (is_terminal (over "a" 20).status ≡ true)
    × EndedBefore (over "d" 5) (over "a" 20)
    × (length (create_run "l" 40 [] none none full).1.runs ≡ 11)
unfolding create_run prune_terminal_records evicted keys_where del_all get put sort_by del
create_run_evicts_example =
    create_run_evicts "l" 40 [] none none full "d" "a" (over "d" 5) (over "a" 20) full-IsValid refl
      refl refl refl refl
