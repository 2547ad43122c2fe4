-- ===== src/RunLaunch/Announced.antt =====
-- The steps that a run announces before it starts (conformance/api/run_lifecycle.py).
use conformance_suite_v.Base.{
  ℕ, suc, zero, String, ◌≡◌, refl, none, some, List, [], ◌∷◌, map, filter, elem, length, arith, ap,
  sym,
}
use conformance_suite_v.TestPlan.{V1Step, Manifest, TestPlan, selected_step_ids}
use conformance_suite_v.RunStore.{RunPlanStep}
use conformance_suite_v.RunLaunch.{planned_steps, steps_selected, selected_planned_steps_snapshot}

-- `n, n + 1, …`, as many as this
abbrev pub count_from : ℕ → ℕ → List ℕ
count_from n zero = []
count_from n (suc m) = n ∷ count_from (suc n) m

-- the steps with these identifiers
abbrev pub selected_of : List String → List V1Step → List V1Step
selected_of ids steps = filter (λ (s : V1Step). elem s.id ids) steps

abbrev IsAnnounced : ℕ → List V1Step → List RunPlanStep → Type 0
IsAnnounced n steps planned =
    (map (λ (s : RunPlanStep). s.step_id) planned ≡ map (λ (s : V1Step). s.id) steps)
    × (map (λ (s : RunPlanStep). s.mandatory) planned ≡ map (λ (s : V1Step). s.mandatory) steps)
    × (map (λ (s : RunPlanStep). s.order) planned ≡ count_from n (length planned))

planned_steps-IsAnnounced :
    (ids : List String) (n : ℕ) (steps : List V1Step)
    → IsAnnounced n (selected_of ids steps) (planned_steps ids n steps)
unfolding planned_steps filter
planned_steps-IsAnnounced ids n [] = (refl, refl, refl)
planned_steps-IsAnnounced ids n (s ∷ steps) =
    ground
      (arith, planned_steps-IsAnnounced ids n steps, planned_steps-IsAnnounced ids (suc n) steps)

none_selected : (steps : List V1Step) → selected_of [] steps ≡ []
unfolding filter elem
none_selected [] = refl
none_selected (s ∷ steps) = none_selected steps

-- A run of a manifest announces exactly the steps of the manifest that its plan selects, in the
-- manifest's order, each with its mandatory flag, and numbers them from 0.
pub selected_planned_steps_snapshot-IsAnnounced :
    (m : Manifest) (plan : TestPlan)
    → (map
          (λ (s : RunPlanStep). s.step_id)
          (selected_planned_steps_snapshot none (some m) (some plan))
        ≡ map (λ (s : V1Step). s.id) (selected_of (selected_step_ids plan) m.steps))
      × (map
            (λ (s : RunPlanStep). s.mandatory)
            (selected_planned_steps_snapshot none (some m) (some plan))
          ≡ map (λ (s : V1Step). s.mandatory) (selected_of (selected_step_ids plan) m.steps))
      × (map
            (λ (s : RunPlanStep). s.order)
            (selected_planned_steps_snapshot none (some m) (some plan))
          ≡ count_from 0 (length (selected_planned_steps_snapshot none (some m) (some plan))))
unfolding selected_planned_steps_snapshot
selected_planned_steps_snapshot-IsAnnounced m plan = announced (selected_step_ids plan)
  where
    announced :
        (ids : List String) → IsAnnounced 0 (selected_of ids m.steps) (steps_selected ids m.steps)
    announced [] =
        let e = none_selected m.steps in
        (
          ap (map (λ (s : V1Step). s.id)) (sym e),
          ap (map (λ (s : V1Step). s.mandatory)) (sym e),
          refl,
        )
    announced (i ∷ ids) = planned_steps-IsAnnounced (i ∷ ids) 0 m.steps
