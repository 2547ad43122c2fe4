-- ===== src/Executor/Workers.antt =====
-- The results of one thread, or of a sequence of steps (conformance/executor.py): one for each step, in
-- order, and marked as mandatory where the step is.
use mathlib.Core.List.{append_assoc}
use conformance_suite_v.Base.{
  String, ◌≡◌, refl, ap, sym, ◌∙◌, false, Option, none, some, List, [], ◌∷◌, ◌++◌, map, Result, ok,
  err, Bool-cases, inl, inr,
}
use conformance_suite_v.TestPlan.{StepKind, http, psu_authorization, V1Step}
use conformance_suite_v.Report.{StepResult}
use conformance_suite_v.Executor.{
  Performers, performer, marked, execute_manifest_step, cons_result, and_then,
  execute_step_sequence, Worker, note, advance,
}

abbrev pub ids : List V1Step → List String
ids = map (λ (s : V1Step). s.id)

abbrev pub names : List StepResult → List String
names = map (λ (r : StepResult). r.name)

-- what `_execute_v1_psu_step` and `_execute_v1_step` give for a step: a result with its name, which they
-- leave unmarked; and `R` holds if they raise
abbrev pub IsUnmarked : {C : Type 0} → Type 0 → V1Step → Result String (StepResult × C) → Type 0
IsUnmarked R step (err error) = R
IsUnmarked R step (ok (r, c)) = (r.name ≡ step.id) × (r.mandatory ≡ false)

pub record IsFaithful {C S : Type 0} (R : Type 0) (p : Performers C S) : Type 0 where
  pub psu : (step : V1Step) (c : C) (s : S) → IsUnmarked R step (p.psu_step step c s).0
  pub http : (step : V1Step) (c : C) (s : S) → IsUnmarked R step (p.http_step step c s).0

-- a result that stands for a step
abbrev pub Answers : V1Step → StepResult → Type 0
Answers step r = (r.name ≡ step.id) × (r.mandatory ≡ step.mandatory)

abbrev pub MayAnswer : {C : Type 0} → Type 0 → V1Step → Result String (StepResult × C) → Type 0
MayAnswer R step (err error) = R
MayAnswer R step (ok (r, c)) = Answers step r

-- results for steps, one by one
abbrev pub AnswersAll : List V1Step → List StepResult → Type 0
AnswersAll [] [] = Unit
AnswersAll [] (r ∷ rs) = ⊥
AnswersAll (step ∷ steps) [] = ⊥
AnswersAll (step ∷ steps) (r ∷ rs) = Answers step r × AnswersAll steps rs

pub AnswersAll-append :
    (xs ys : List V1Step) (rs qs : List StepResult)
    → AnswersAll xs rs
    → AnswersAll ys qs
    → AnswersAll (xs ++ ys) (rs ++ qs)
AnswersAll-append [] ys [] qs h g = g
AnswersAll-append [] ys (r ∷ rs) qs h g = absurd h
AnswersAll-append (x ∷ xs) ys [] qs h g = absurd h
AnswersAll-append (x ∷ xs) ys (r ∷ rs) qs (a, h) g = (a, AnswersAll-append xs ys rs qs h g)

module _ {C S : Type 0} (R : Type 0) (p : Performers C S) (faithful : IsFaithful R p) where
  performer-IsUnmarked :
      (k : StepKind) (step : V1Step) (c : C) (s : S) → IsUnmarked R step (performer p k step c s).0
  performer-IsUnmarked psu_authorization step c s = faithful.psu step c s
  performer-IsUnmarked http step c s = faithful.http step c s

  marked-MayAnswer :
      (step : V1Step) (o : Result String (StepResult × C) × S)
      → IsUnmarked R step o.0
      → MayAnswer R step (marked step o).0
  marked-MayAnswer step (err error, s) h = h
  marked-MayAnswer step (ok (r, c), s) (name, unmarked) = elim (Bool-cases step.mandatory) [
    | inl m ↦ rw m (name, refl)
    | inr m ↦ rw m (name, unmarked)
  ]

  pub execute_manifest_step-MayAnswer :
      (step : V1Step) (c : C) (s : S) → MayAnswer R step (execute_manifest_step p step c s).0
  unfolding execute_manifest_step
  execute_manifest_step-MayAnswer step c s =
      marked-MayAnswer step (performer p step.kind step c s)
        (performer-IsUnmarked step.kind step c s)

  -- a sequence that does not raise answers its steps
  abbrev pub MayAnswerAll : List V1Step → Result String (List StepResult × C) → Type 0
  MayAnswerAll steps (err error) = R
  MayAnswerAll steps (ok (rs, c)) = AnswersAll steps rs

  cons_result-MayAnswerAll :
      (step : V1Step) (steps : List V1Step) (r : StepResult)
      (o : Result String (List StepResult × C) × S)
      → Answers step r
      → MayAnswerAll steps o.0
      → MayAnswerAll (step ∷ steps) (cons_result r o).0
  cons_result-MayAnswerAll step steps r (err error, s) a h = h
  cons_result-MayAnswerAll step steps r (ok (rs, c), s) a h = (a, h)

  pub execute_step_sequence-MayAnswerAll :
      (steps : List V1Step) (c : C) (s : S)
      → MayAnswerAll steps (execute_step_sequence p steps c s).0
  unfolding execute_step_sequence
  execute_step_sequence-MayAnswerAll [] c s = tt
  execute_step_sequence-MayAnswerAll (step ∷ steps) c s =
      go (execute_manifest_step p step c s) (execute_manifest_step-MayAnswer step c s)
        (λ c' s'. execute_step_sequence-MayAnswerAll steps c' s')
    where
      go :
          (o : Result String (StepResult × C) × S)
          → MayAnswer R step o.0
          → ((c' : C) (s' : S) → MayAnswerAll steps (execute_step_sequence p steps c' s').0)
          → MayAnswerAll (step ∷ steps) (and_then (execute_step_sequence p steps) o).0
      go (err error, s') a h = a
      go (ok (r, c'), s') a h =
          cons_result-MayAnswerAll step steps r (execute_step_sequence p steps c' s') a (h c' s')

  -- how far a thread has come with its steps, unless it raised
  abbrev pub IsAt : List V1Step → Worker C → Option String → Type 0
  IsAt steps w (some error) = (w.todo ≡ []) × R
  IsAt steps w none = (before : List V1Step) × (before ++ w.todo ≡ steps) × AnswersAll before w.done

  note-IsAt :
      (steps : List V1Step) (w : Worker C) (step : V1Step) (rest : List V1Step)
      (o : Result String (StepResult × C) × S)
      → MayAnswer R step o.0
      → w.raised ≡ none
      → (before : List V1Step) → before ++ step ∷ rest ≡ steps
      → AnswersAll before w.done
      → IsAt steps (note w rest o).0 (note w rest o).0.raised
  note-IsAt steps w step rest (err error, s) a e before split h = (refl, a)
  note-IsAt steps w step rest (ok (r, c), s) a e before split h = rw e (
    before ++ step ∷ [],
    append_assoc before (step ∷ []) rest ∙ split,
    AnswersAll-append before (step ∷ []) w.done (r ∷ []) h (a, tt),
  )

  pub advance-IsAt :
      (steps : List V1Step) (w : Worker C) (s : S)
      → IsAt steps w w.raised
      → IsAt steps (advance p w.todo w s).0 (advance p w.todo w s).0.raised
  advance-IsAt steps w s h = go w.todo w.raised refl refl h
    where
      go :
          (todo : List V1Step) (raised : Option String)
          → w.todo ≡ todo
          → w.raised ≡ raised
          → IsAt steps w raised
          → IsAt steps (advance p todo w s).0 (advance p todo w s).0.raised
      go [] raised t e at = rw e at
      go (step ∷ rest) (some error) t e at = absurd (cc (t, at.0))
      go (step ∷ rest) none t e (before, split, done) =
          note-IsAt steps w step rest (execute_manifest_step p step w.context s)
            (execute_manifest_step-MayAnswer step w.context s) e before
            (ap (λ (l : List V1Step). before ++ l) (sym t) ∙ split) done
