-- ===== src/Executor/Answers.antt =====
-- The results of a whole run of a v1 manifest (conformance/executor.py).
use mathlib.Core.Path.{subst}
use conformance_suite_v.Base.{
  ℕ, String, ◌≡◌, refl, sym, ◌∙◌, Bool, false, List, [], ◌∷◌, ◌++◌, map, Result, ok, err, arith,
  eq_iff, leb, if◌then◌else◌, elem, filter, All, All-append, Bool-cases, inl, inr,
}
use conformance_suite_v.Base.Dict.Distinct.{Distinct}
use conformance_suite_v.Base.Sort.{insert_by, sort_by}
use conformance_suite_v.TestPlan.{V1Step, Manifest, TestPlan, selected_step_ids}
use conformance_suite_v.Schedule.{ExecutionGroup, build_execution_schedule}
use conformance_suite_v.Schedule.Groups.{runs_first, runs_in, build_execution_schedule-IsSchedule}
use conformance_suite_v.Report.{StepResult}
use conformance_suite_v.Executor.{
  Performers, execute_step_sequence, start_worker, turns, collect, extend, manifest_order,
  insert_result, sort_results, sorted, execute_groups_concurrently, emit_deselected, after_setup,
  manifest_steps,
}
use conformance_suite_v.Executor.Workers.{
  ids, IsFaithful, AnswersAll, AnswersAll-append, execute_step_sequence-MayAnswerAll, MayAnswerAll,
}
use conformance_suite_v.Executor.Turns.{group_steps, HaveTurns, CollectAnswers, collect-turns}
use conformance_suite_v.Executor.Order.{runs_later, sort_by-group_steps}

-- the identifiers of the mandatory steps
abbrev pub mandatory_ids : List V1Step → List String
mandatory_ids steps = ids (filter (λ (s : V1Step). s.mandatory) steps)

-- the step is mandatory exactly if its identifier is listed
abbrev IsListed : List String → V1Step → Type 0
IsListed mids s = s.mandatory ≡ elem s.id mids

-- results for identifiers, one by one
abbrev AnswersIds : List String → List String → List StepResult → Type 0
AnswersIds mids [] [] = Unit
AnswersIds mids [] (r ∷ rs) = ⊥
AnswersIds mids (i ∷ is) [] = ⊥
AnswersIds mids (i ∷ is) (r ∷ rs) =
    ((r.name ≡ i) × (r.mandatory ≡ elem i mids)) × AnswersIds mids is rs

elem-filter :
    (i : String) (p : V1Step → Bool) (steps : List V1Step)
    → elem i (ids steps) ≡ false
    → elem i (ids (filter p steps)) ≡ false
unfolding elem filter
elem-filter i p [] h = h
elem-filter i p (s ∷ steps) h = ground (arith, elem-filter i p steps)

skip_other :
    (i : String) (b : Bool) (mids : List String) (steps : List V1Step)
    → elem i (ids steps) ≡ false
    → All (IsListed mids) steps
    → All (IsListed (if b then i ∷ mids else mids)) steps
unfolding elem
skip_other i b mids [] h all = tt
skip_other i b mids (t ∷ steps) h (e, all) =
    (ground (arith, eq_iff i t.id, eq_iff t.id i), skip_other i b mids steps (ground arith) all)

mandatory_ids-cons :
    (s : V1Step) (steps : List V1Step)
    → mandatory_ids (s ∷ steps)
      ≡ (if s.mandatory then s.id ∷ mandatory_ids steps else mandatory_ids steps)
unfolding filter
mandatory_ids-cons s steps = ground arith

mandatory_ids-IsListed :
    (steps : List V1Step) → Distinct (ids steps) → All (IsListed (mandatory_ids steps)) steps
unfolding elem
mandatory_ids-IsListed [] d = tt
mandatory_ids-IsListed (s ∷ steps) (new, d) =
    let mids = mandatory_ids steps in
    let head : IsListed (if s.mandatory then s.id ∷ mids else mids) s =
      ground (arith, eq_iff s.id s.id, elem-filter s.id (λ (t : V1Step). t.mandatory) steps new) in
    subst (λ l. All (IsListed l) (s ∷ steps)) (sym (mandatory_ids-cons s steps))
      (head, skip_other s.id s.mandatory mids steps new (mandatory_ids-IsListed steps d))

All-filter :
    (mids : List String) (p : V1Step → Bool) (steps : List V1Step)
    → All (IsListed mids) steps
    → All (IsListed mids) (filter p steps)
unfolding filter
All-filter mids p [] h = tt
All-filter mids p (s ∷ steps) (e, h) = elim (Bool-cases (p s)) [
  | inl t ↦ rw t (e, All-filter mids p steps h)
  | inr t ↦ rw t (All-filter mids p steps h)
]

All-group_steps :
    (mids : List String) (selected : List String) (steps : List V1Step)
    (groups : List ExecutionGroup)
    → All (IsListed mids) steps
    → All (λ x. x.steps ≡ filter (runs_in selected x.group_id) steps) groups
    → All (IsListed mids) (group_steps groups)
All-group_steps mids selected steps [] h e = tt
All-group_steps mids selected steps (g ∷ groups) h (e, es) =
    All-append (IsListed mids) g.steps (group_steps groups)
      (rw e (All-filter mids (runs_in selected g.group_id) steps h))
      (All-group_steps mids selected steps groups h es)

module _ (mids : List String) where
  AnswersAll-ids :
      (steps : List V1Step) (rs : List StepResult)
      → All (IsListed mids) steps
      → AnswersAll steps rs
      → AnswersIds mids (ids steps) rs
  AnswersAll-ids [] [] l h = tt
  AnswersAll-ids [] (r ∷ rs) l h = absurd h
  AnswersAll-ids (s ∷ steps) [] l h = absurd h
  AnswersAll-ids (s ∷ steps) (r ∷ rs) (e, l) ((name, mark), h) =
      ((name, mark ∙ e), AnswersAll-ids steps rs l h)

  AnswersIds-all :
      (steps : List V1Step) (rs : List StepResult)
      → All (IsListed mids) steps
      → AnswersIds mids (ids steps) rs
      → AnswersAll steps rs
  AnswersIds-all [] [] l h = tt
  AnswersIds-all [] (r ∷ rs) l h = absurd h
  AnswersIds-all (s ∷ steps) [] l h = absurd h
  AnswersIds-all (s ∷ steps) (r ∷ rs) (e, l) ((name, mark), h) =
      ((name, mark ∙ sym e), AnswersIds-all steps rs l h)

  -- the results are sorted as their names are
  insert_result-AnswersIds :
      (key : String → ℕ) (i : String) (is : List String) (r : StepResult) (rs : List StepResult)
      → (r.name ≡ i) × (r.mandatory ≡ elem i mids)
      → AnswersIds mids is rs
      → AnswersIds mids (insert_by key i is) (insert_result key r rs)
  unfolding insert_by insert_result
  insert_result-AnswersIds key i [] r [] a h = (a, tt)
  insert_result-AnswersIds key i [] r (q ∷ rs) a h = absurd h
  insert_result-AnswersIds key i (j ∷ is) r [] a h = absurd h
  insert_result-AnswersIds key i (j ∷ is) r (q ∷ rs) a (b, h) =
      let rest = insert_result-AnswersIds key i is r rs a h in
      let same : leb (key r.name) (key q.name) ≡ leb (key i) (key j) = rw (a.0, b.0) refl in
      elim (Bool-cases (leb (key i) (key j))) [
        | inl t ↦ rw (same, t) (a, (b, h))
        | inr t ↦ rw (same, t) (b, rest)
      ]

  sort_results-AnswersIds :
      (key : String → ℕ) (is : List String) (rs : List StepResult)
      → AnswersIds mids is rs
      → AnswersIds mids (sort_by key is) (sort_results key rs)
  unfolding sort_by sort_results
  sort_results-AnswersIds key [] [] h = tt
  sort_results-AnswersIds key [] (r ∷ rs) h = absurd h
  sort_results-AnswersIds key (i ∷ is) [] h = absurd h
  sort_results-AnswersIds key (i ∷ is) (r ∷ rs) (a, h) =
      insert_result-AnswersIds key i (sort_by key is) r (sort_results key rs) a
        (sort_results-AnswersIds key is rs h)

-- the steps that a run performs, in the order of its results
abbrev pub expected : Manifest → TestPlan → List V1Step
expected m plan =
    filter (runs_first (selected_step_ids plan)) m.steps
    ++ filter (runs_later (selected_step_ids plan)) m.steps

module _ {C S : Type 0} (R : Type 0) (p : Performers C S) (faithful : IsFaithful R p) (m : Manifest)
    (plan : TestPlan) (v1 : m.schema_version ≡ "v1") (unique : Distinct (ids m.steps)) where
  sorted-CollectAnswers :
      (o : Result String (List StepResult))
      → CollectAnswers R p faithful
          (group_steps (build_execution_schedule m plan).execution_groups)
          o
      → CollectAnswers R p faithful
          (filter (runs_later (selected_step_ids plan)) m.steps)
          (sorted m.steps o)
  sorted-CollectAnswers (err error) h = h
  sorted-CollectAnswers (ok rs) h =
      let selected = selected_step_ids plan in
      let schedule = build_execution_schedule-IsSchedule m plan v1 in
      let found = group_steps (build_execution_schedule m plan).execution_groups in
      let mids = mandatory_ids m.steps in
      let key = manifest_order m.steps in
      let listed = mandatory_ids-IsListed m.steps unique in
      let by_ids = sort_results-AnswersIds mids key (ids found) rs (
        AnswersAll-ids mids found rs
          (All-group_steps mids selected m.steps (build_execution_schedule m plan).execution_groups
            listed schedule.groups)
          h) in
      AnswersIds-all mids (filter (runs_later selected) m.steps) (sort_results key rs)
        (All-filter mids (runs_later selected) m.steps listed)
        (subst (λ l. AnswersIds mids l (sort_results key rs))
          (sort_by-group_steps m selected (build_execution_schedule m plan) unique schedule) by_ids)

  extend-CollectAnswers :
      (xs ys : List V1Step) (rs : List StepResult) (o : Result String (List StepResult))
      → AnswersAll xs rs
      → CollectAnswers R p faithful ys o
      → CollectAnswers R p faithful (xs ++ ys) (extend (ok rs) o)
  extend-CollectAnswers xs ys rs (err error) h g = g
  extend-CollectAnswers xs ys rs (ok qs) h g = AnswersAll-append xs ys rs qs h g

  pub manifest_steps-CollectAnswers :
      (ns : List ℕ) (c : C) (s : S)
      → HaveTurns ns (build_execution_schedule m plan).execution_groups
      → CollectAnswers R p faithful (expected m plan) (manifest_steps p ns c m plan s).0
  unfolding manifest_steps
  manifest_steps-CollectAnswers ns c s enough =
      let schedule = build_execution_schedule m plan in
      go (execute_step_sequence p schedule.setup_steps c (emit_deselected p plan.entries s)) (
        execute_step_sequence-MayAnswerAll R p faithful schedule.setup_steps c
          (emit_deselected p plan.entries s))
    where
      go :
          (o : Result String (List StepResult × C) × S)
          → MayAnswerAll R p faithful (build_execution_schedule m plan).setup_steps o.0
          → CollectAnswers R p faithful
              (expected m plan)
              (after_setup p ns (build_execution_schedule m plan).execution_groups m o).0
      go (err error, s') h = h
      go (ok (rs, c'), s') h =
          let groups = (build_execution_schedule m plan).execution_groups in
          let setups = (build_execution_schedule-IsSchedule m plan v1).setups in
          extend-CollectAnswers (filter (runs_first (selected_step_ids plan)) m.steps)
            (filter (runs_later (selected_step_ids plan)) m.steps) rs
            (execute_groups_concurrently p ns groups c' m s').0
            (subst (λ l. AnswersAll l rs) setups h)
            (unfold execute_groups_concurrently in
              sorted-CollectAnswers (collect (turns p ns (map (start_worker c') groups) s').0)
                (collect-turns R p faithful ns c' groups s' enough))
