-- ===== src/Executor/Turns.antt =====
-- The threads of the groups, in whatever order they get their turns (conformance/executor.py).
use conformance_suite_v.Base.{
  ℕ, zero, suc, String, ◌≡◌, ◌≤◌, length, refl, ap, sym, ◌∙◌, Option, none, some, List, [], ◌∷◌,
  ◌++◌, map, Result, ok, err, arith, All,
}
use mathlib.Core.List.{append-nil}
use conformance_suite_v.TestPlan.{V1Step}
use conformance_suite_v.Schedule.{ExecutionGroup}
use conformance_suite_v.Report.{StepResult}
use conformance_suite_v.Executor.{
  Performers, execute_manifest_step, Worker, start_worker, note, advance, turn, turns, result_of,
  extend, collect,
}
use conformance_suite_v.Executor.Workers.{
  IsFaithful, AnswersAll, AnswersAll-append, IsAt, advance-IsAt,
}

-- the steps of all groups, group by group
abbrev pub group_steps : List ExecutionGroup → List V1Step
group_steps [] = []
group_steps (g ∷ groups) = g.steps ++ group_steps groups

-- the turns of the first thread, and those of the others
unfoldable pub zeros : List ℕ → ℕ
zeros [] = 0
zeros (zero ∷ ns) = suc (zeros ns)
zeros (suc n ∷ ns) = zeros ns

unfoldable pub downs : List ℕ → List ℕ
downs [] = []
downs (zero ∷ ns) = downs ns
downs (suc n ∷ ns) = n ∷ downs ns

-- each thread gets a turn for each of its steps
abbrev pub HaveTurns : List ℕ → List ExecutionGroup → Type 0
HaveTurns ns [] = Unit
HaveTurns ns (g ∷ groups) = (length g.steps ≤ zeros ns) × HaveTurns (downs ns) groups

-- no thread has a step left
abbrev pub AreFinished : {C : Type 0} → List (Worker C) → Type 0
AreFinished ws = All (λ w. w.todo ≡ []) ws

abbrev pub Need : {C : Type 0} → List ℕ → List (Worker C) → Type 0
Need ns [] = Unit
Need ns (w ∷ ws) = (length w.todo ≤ zeros ns) × Need (downs ns) ws

module _ {C S : Type 0} (p : Performers C S) where
  note-length :
      (w : Worker C) (step : V1Step) (rest : List V1Step) (o : Result String (StepResult × C) × S)
      → length (note w rest o).0.todo ≤ length rest
  note-length w step rest (ok (r, c), s) = omega arith
  note-length w step rest (err error, s) = omega arith

  advance-length :
      (w : Worker C) (s : S) (n : ℕ)
      → length w.todo ≤ suc n
      → length (advance p w.todo w s).0.todo ≤ n
  advance-length w s n h = go w.todo refl h
    where
      go :
          (todo : List V1Step)
          → w.todo ≡ todo
          → length todo ≤ suc n
          → length (advance p todo w s).0.todo ≤ n
      go [] t h = omega (arith, ap length t)
      go (step ∷ rest) t h =
          omega (arith, note-length w step rest (execute_manifest_step p step w.context s))

  turn-Need :
      (n : ℕ) (ns : List ℕ) (ws : List (Worker C)) (s : S)
      → Need (n ∷ ns) ws
      → Need ns (turn p n ws s).0
  unfolding turn zeros downs
  turn-Need zero ns [] s h = tt
  turn-Need (suc n) ns [] s h = tt
  turn-Need zero ns (w ∷ ws) s (k, h) = (advance-length w s (zeros ns) k, h)
  turn-Need (suc n) ns (w ∷ ws) s (k, h) = (k, turn-Need n (downs ns) ws s h)

  Need-AreFinished : (ws : List (Worker C)) → Need [] ws → AreFinished ws
  unfolding zeros downs
  Need-AreFinished [] h = tt
  Need-AreFinished (w ∷ ws) (k, h) = (empty w.todo k, Need-AreFinished ws h)
    where
      empty : (l : List V1Step) → length l ≤ 0 → l ≡ []
      empty [] e = refl
      empty (x ∷ l) e = absurd (omega arith)

  pub turns-AreFinished :
      (ns : List ℕ) (ws : List (Worker C)) (s : S) → Need ns ws → AreFinished (turns p ns ws s).0
  unfolding turns
  turns-AreFinished [] ws s h = Need-AreFinished ws h
  turns-AreFinished (n ∷ ns) ws s h =
      turns-AreFinished ns (turn p n ws s).0 (turn p n ws s).1 (turn-Need n ns ws s h)

  pub HaveTurns-Need :
      (ns : List ℕ) (c : C) (groups : List ExecutionGroup)
      → HaveTurns ns groups
      → Need ns (map (start_worker c) groups)
  HaveTurns-Need ns c [] h = tt
  HaveTurns-Need ns c (g ∷ groups) (k, h) = (k, HaveTurns-Need (downs ns) c groups h)

module _ {C S : Type 0} (R : Type 0) (p : Performers C S) (faithful : IsFaithful R p) where
  abbrev AreAt : List ExecutionGroup → List (Worker C) → Type 0
  AreAt [] [] = Unit
  AreAt [] (w ∷ ws) = ⊥
  AreAt (g ∷ groups) [] = ⊥
  AreAt (g ∷ groups) (w ∷ ws) = IsAt R p faithful g.steps w w.raised × AreAt groups ws

  start-AreAt : (c : C) (groups : List ExecutionGroup) → AreAt groups (map (start_worker c) groups)
  start-AreAt c [] = tt
  start-AreAt c (g ∷ groups) = (([], refl, tt), start-AreAt c groups)

  turn-AreAt :
      (n : ℕ) (groups : List ExecutionGroup) (ws : List (Worker C)) (s : S)
      → AreAt groups ws
      → AreAt groups (turn p n ws s).0
  unfolding turn
  turn-AreAt zero [] [] s h = tt
  turn-AreAt (suc n) [] [] s h = tt
  turn-AreAt zero [] (w ∷ ws) s h = absurd h
  turn-AreAt (suc n) [] (w ∷ ws) s h = absurd h
  turn-AreAt zero (g ∷ groups) [] s h = absurd h
  turn-AreAt (suc n) (g ∷ groups) [] s h = absurd h
  turn-AreAt zero (g ∷ groups) (w ∷ ws) s (at, h) = (advance-IsAt R p faithful g.steps w s at, h)
  turn-AreAt (suc n) (g ∷ groups) (w ∷ ws) s (at, h) = (at, turn-AreAt n groups ws s h)

  turns-AreAt :
      (ns : List ℕ) (groups : List ExecutionGroup) (ws : List (Worker C)) (s : S)
      → AreAt groups ws
      → AreAt groups (turns p ns ws s).0
  unfolding turns
  turns-AreAt [] groups ws s h = h
  turns-AreAt (n ∷ ns) groups ws s h =
      turns-AreAt ns groups (turn p n ws s).0 (turn p n ws s).1 (turn-AreAt n groups ws s h)

  -- the results that are collected answer the steps of the groups
  abbrev pub CollectAnswers : List V1Step → Result String (List StepResult) → Type 0
  CollectAnswers steps (err error) = R
  CollectAnswers steps (ok rs) = AnswersAll steps rs

  extend-CollectAnswers :
      (xs ys : List V1Step) (o q : Result String (List StepResult))
      → CollectAnswers xs o
      → CollectAnswers ys q
      → CollectAnswers (xs ++ ys) (extend o q)
  extend-CollectAnswers xs ys (err error) q h g = h
  extend-CollectAnswers xs ys (ok rs) (err error) h g = g
  extend-CollectAnswers xs ys (ok rs) (ok qs) h g = AnswersAll-append xs ys rs qs h g

  result_of-CollectAnswers :
      (steps : List V1Step) (w : Worker C)
      → w.todo ≡ []
      → IsAt R p faithful steps w w.raised
      → CollectAnswers steps (result_of w)
  result_of-CollectAnswers steps w over at = go w.raised at
    where
      go :
          (o : Option String)
          → IsAt R p faithful steps w o
          → CollectAnswers steps (elim o as (λ x. Result String (List StepResult)) [
            | none ↦ ok w.done
            | some error ↦ err error
          ])
      go (some error) h = h.1
      go none (before, split, done) =
          let all : before ≡ steps =
            sym (append-nil before) ∙ ap (λ (l : List V1Step). before ++ l) (sym over) ∙ split in
          rw (← all) done

  collect-CollectAnswers :
      (groups : List ExecutionGroup) (ws : List (Worker C))
      → AreFinished ws
      → AreAt groups ws
      → CollectAnswers (group_steps groups) (collect ws)
  unfolding collect
  collect-CollectAnswers [] [] f h = tt
  collect-CollectAnswers [] (w ∷ ws) f h = absurd h
  collect-CollectAnswers (g ∷ groups) [] f h = absurd h
  collect-CollectAnswers (g ∷ groups) (w ∷ ws) (over, f) (at, h) =
      extend-CollectAnswers g.steps (group_steps groups) (result_of w) (collect ws)
        (result_of-CollectAnswers g.steps w over at) (collect-CollectAnswers groups ws f h)

  -- whatever turns the threads got, if they are enough
  pub collect-turns :
      (ns : List ℕ) (c : C) (groups : List ExecutionGroup) (s : S)
      → HaveTurns ns groups
      → CollectAnswers (group_steps groups) (collect (turns p ns (map (start_worker c) groups) s).0)
  collect-turns ns c groups s f =
      collect-CollectAnswers groups (turns p ns (map (start_worker c) groups) s).0
        (turns-AreFinished p ns (map (start_worker c) groups) s (HaveTurns-Need p ns c groups f))
        (turns-AreAt ns groups (map (start_worker c) groups) s (start-AreAt c groups))
