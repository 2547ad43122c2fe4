-- ===== src/Executor/Independent.antt =====
-- Threads that do not affect one another give the same results in every order (conformance/executor.py).
use conformance_suite_v.Base.{
  ℕ, zero, suc, String, ◌≡◌, refl, ap, sym, ◌∙◌, some, List, [], ◌∷◌, ◌++◌, map, Result, ok, err,
}
use conformance_suite_v.TestPlan.{StepKind, http, psu_authorization, V1Step, Manifest}
use conformance_suite_v.Schedule.{ExecutionGroup}
use conformance_suite_v.Report.{StepResult}
use conformance_suite_v.Executor.{
  Performers, performer, marked, execute_manifest_step, Worker, start_worker, note, advance, turn,
  turns, collect, sorted, execute_groups_concurrently,
}
use conformance_suite_v.Executor.Turns.{HaveTurns, AreFinished, turns-AreFinished, HaveTurns-Need}

-- what a step gives does not depend on what the threads share
pub record IsIndependent {C S : Type 0} (p : Performers C S) : Type 0 where
  pub psu : (step : V1Step) (c : C) (s t : S) → (p.psu_step step c s).0 ≡ (p.psu_step step c t).0
  pub http : (step : V1Step) (c : C) (s t : S) → (p.http_step step c s).0 ≡ (p.http_step step c t).0

abbrev noted : {C : Type 0} → Worker C → List V1Step → Result String (StepResult × C) → Worker C
noted w rest (ok (r, c)) = record w { todo = rest; context = c; done = w.done ++ r ∷ [] }
noted w rest (err error) = record w { todo = []; raised = some error }

module _ {C S : Type 0} (p : Performers C S) (independent : IsIndependent p) (t : S) where
  performer_same :
      (k : StepKind) (step : V1Step) (c : C) (s : S)
      → (performer p k step c s).0 ≡ (performer p k step c t).0
  performer_same psu_authorization step c s = independent.psu step c s t
  performer_same http step c s = independent.http step c s t

  marked_same :
      (step : V1Step) (o q : Result String (StepResult × C) × S)
      → o.0 ≡ q.0
      → (marked step o).0 ≡ (marked step q).0
  marked_same step (ok (r, c), s) (ok (r', c'), s') e = cc
  marked_same step (ok (r, c), s) (err x, s') e = absurd (cc)
  marked_same step (err x, s) (ok (r', c'), s') e = absurd (cc)
  marked_same step (err x, s) (err y, s') e = e

  -- a step from the state `t`
  abbrev perform : V1Step → C → Result String (StepResult × C)
  perform step c = (execute_manifest_step p step c t).0

  perform_same :
      (step : V1Step) (c : C) (s : S) → (execute_manifest_step p step c s).0 ≡ perform step c
  unfolding execute_manifest_step
  perform_same step c s =
      marked_same step (performer p step.kind step c s) (performer p step.kind step c t)
        (performer_same step.kind step c s)

  -- a thread at its end, when it runs alone
  final : List V1Step → Worker C → Worker C
  final [] w = w
  final (step ∷ rest) w = elim (perform step w.context) [
    | ok rc ↦ final rest (noted w rest (ok rc))
    | err error ↦ noted w rest (err error)
  ]

  final-note :
      (w : Worker C) (rest : List V1Step) (o : Result String (StepResult × C) × S)
      → final (note w rest o).0.todo (note w rest o).0 ≡ (elim o.0 as (λ x. Worker C) [
        | ok rc ↦ final rest (noted w rest (ok rc))
        | err error ↦ noted w rest (err error)
      ])
  unfolding final
  final-note w rest (ok (r, c), s) = refl
  final-note w rest (err error, s) = refl

  abbrev final_of : Worker C → Worker C
  final_of w = final w.todo w

  final-advance : (w : Worker C) (s : S) → final_of (advance p w.todo w s).0 ≡ final_of w
  final-advance w s = go w.todo refl
    where
      go : (todo : List V1Step) → w.todo ≡ todo → final_of (advance p todo w s).0 ≡ final todo w
      go [] e = rw e refl
      go (step ∷ rest) e =
          final-note w rest (execute_manifest_step p step w.context s)
          ∙ (unfold final in
              ap
                (λ o. elim o as (λ x. Worker C) [
                  | ok rc ↦ final rest (noted w rest (ok rc))
                  | err error ↦ noted w rest (err error)
                ])
                (perform_same step w.context s))

  map-turn :
      (n : ℕ) (ws : List (Worker C)) (s : S) → map final_of (turn p n ws s).0 ≡ map final_of ws
  unfolding turn
  map-turn n [] s = refl
  map-turn zero (w ∷ ws) s = ap (λ x. x ∷ map final_of ws) (final-advance w s)
  map-turn (suc n) (w ∷ ws) s = ap (λ l. final_of w ∷ l) (map-turn n ws s)

  map-turns :
      (ns : List ℕ) (ws : List (Worker C)) (s : S)
      → map final_of (turns p ns ws s).0 ≡ map final_of ws
  unfolding turns
  map-turns [] ws s = refl
  map-turns (n ∷ ns) ws s = map-turns ns (turn p n ws s).0 (turn p n ws s).1 ∙ map-turn n ws s

  map-finished : (ws : List (Worker C)) → AreFinished ws → map final_of ws ≡ ws
  map-finished [] h = refl
  map-finished (w ∷ ws) (e, h) =
      ap (λ x. x ∷ map final_of ws) (one w.todo e) ∙ ap (λ l. w ∷ l) (map-finished ws h)
    where
      one : (l : List V1Step) → l ≡ [] → final l w ≡ w
      one [] g = unfold final in refl
      one (x ∷ l) g = absurd (cc)

  turns_alone :
      (ns : List ℕ) (c : C) (groups : List ExecutionGroup) (s : S)
      → HaveTurns ns groups
      → (turns p ns (map (start_worker c) groups) s).0 ≡ map final_of (map (start_worker c) groups)
  turns_alone ns c groups s enough =
      let ws = map (start_worker c) groups in
      sym (
        map-finished (turns p ns ws s).0
          (turns-AreFinished p ns ws s (HaveTurns-Need p ns c groups enough)))
      ∙ map-turns ns ws s

-- If what a step gives does not depend on what the threads share, then the results of the execution
-- groups, or the exception, are the same in whatever order the threads get their turns and from
-- whatever state, provided each thread gets a turn for each of its steps.
pub execute_groups_concurrently_any :
    {C S : Type 0} (p : Performers C S) (ns ns' : List ℕ) (groups : List ExecutionGroup) (c : C)
    (m : Manifest) (s s' : S)
    → IsIndependent p
    → HaveTurns ns groups
    → HaveTurns ns' groups
    → (execute_groups_concurrently p ns groups c m s).0
      ≡ (execute_groups_concurrently p ns' groups c m s').0
unfolding execute_groups_concurrently
execute_groups_concurrently_any {C} {S} p ns ns' groups c m s s' independent enough enough' =
    ap (λ (ws : List (Worker C)). sorted m.steps (collect ws))
      (turns_alone p independent s ns c groups s enough
        ∙ sym (turns_alone p independent s ns' c groups s' enough'))
