-- ===== src/TestPlan/Selection.antt =====
-- Deselection, certification by selection, and the counts of the report.
use conformance_suite_v.Base.{
  is_ok, ◌+◌, String, ◌≡◌, ◌↔◌, refl, ap, Bool, true, false, not, ◌&&◌, List, [], ◌∷◌, map, ok,
  arith, eq_iff, length, filter, all, any, count_if, elem,
}
use conformance_suite_v.TestPlan.{
  V1Step, Manifest, TestPlanEntry, TestPlan, default_entry, default_plan_from_manifest, entry_ids,
  deselect_entry, unknown_ids, with_deselection, selected_step_ids, deselected_step_ids,
  deselected_mandatory_step_ids, is_eligible_by_selection, summary, deselect_known, all_selected,
}

selected-deselect :
    (ids : List String) (es : List TestPlanEntry)
    → entry_ids (filter (λ e. e.selected) (map (deselect_entry ids) es))
      ≡ filter (λ i. not (elem i ids)) (entry_ids (filter (λ e. e.selected) es))
unfolding filter
selected-deselect ids [] = refl
selected-deselect ids (e ∷ es) = ground (arith, selected-deselect ids es)

-- A deselection of known steps is accepted, and then the selected steps are those that were
-- selected before and were not named, in the same order.
pub selected-with_deselection :
    (ids : List String) (plan : TestPlan)
    → unknown_ids ids plan ≡ []
    → (plan' : TestPlan) × (with_deselection ids plan ≡ ok plan')
      × (selected_step_ids plan' ≡ filter (λ i. not (elem i ids)) (selected_step_ids plan))
      × (entry_ids plan'.entries ≡ entry_ids plan.entries)
unfolding with_deselection selected_step_ids
selected-with_deselection ids plan known = (
  record { entries = map (deselect_entry ids) plan.entries },
  rw known refl,
  selected-deselect ids plan.entries,
  same_ids plan.entries,
)
  where
    same_ids : (es : List TestPlanEntry) → entry_ids (map (deselect_entry ids) es) ≡ entry_ids es
    same_ids [] = refl
    same_ids (e ∷ es) = ap (λ l. e.step_id ∷ l) (same_ids es)

length-ids_where :
    (p : TestPlanEntry → Bool) (es : List TestPlanEntry)
    → length (entry_ids (filter p es)) ≡ count_if p es
unfolding filter count_if
length-ids_where p [] = refl
length-ids_where p (e ∷ es) = ground (arith, length-ids_where p es)

count_if-split :
    (p q : TestPlanEntry → Bool) (es : List TestPlanEntry)
    → count_if (λ e. p e && q e) es + count_if (λ e. p e && not (q e)) es ≡ count_if p es
unfolding count_if
count_if-split p q [] = omega arith
count_if-split p q (e ∷ es) = ground (arith, count_if-split p q es)

count_if-not :
    (p : TestPlanEntry → Bool) (es : List TestPlanEntry)
    → count_if p es + count_if (λ e. not (p e)) es ≡ length es
unfolding count_if
count_if-not p [] = omega arith
count_if-not p (e ∷ es) = ground (arith, count_if-not p es)

all-known :
    (p : String → Bool) (ids step_ids : List String) (plan : TestPlan)
    → is_ok (deselect_known (filter (λ i. not (p i)) ids) step_ids plan) ≡ all p ids
unfolding filter all
all-known p [] step_ids plan = refl
all-known p (i ∷ ids) step_ids plan = ground (arith, all-known p ids step_ids plan)

-- A deselection is accepted exactly if each step that it names stands in the plan.
pub is_ok-with_deselection :
    (ids : List String) (plan : TestPlan)
    → is_ok (with_deselection ids plan) ≡ all (λ i. elem i (entry_ids plan.entries)) ids
unfolding with_deselection
is_ok-with_deselection ids plan = all-known (λ i. elem i (entry_ids plan.entries)) ids ids plan

-- The counts of the summary add up, and the steps that it counts are those that are listed.
pub summary_counts :
    (plan : TestPlan)
    → let s = summary plan in
      (s.selected_steps + s.deselected_steps ≡ s.total_steps)
      × (s.selected_steps ≡ length (selected_step_ids plan))
      × (s.deselected_steps ≡ length (deselected_step_ids plan))
      × (s.mandatory_deselected ≡ length (deselected_mandatory_step_ids plan))
      × (s.mandatory_selected + s.mandatory_deselected
          ≡ count_if (λ (e : TestPlanEntry). e.mandatory) plan.entries)
unfolding summary selected_step_ids deselected_step_ids deselected_mandatory_step_ids
summary_counts plan =
    let sel = λ (e : TestPlanEntry). e.selected in
    let man = λ (e : TestPlanEntry). e.mandatory in
    let split = count_if-not sel plan.entries in
    (
      omega (arith, split),
      omega (arith, length-ids_where sel plan.entries),
      omega (arith, split, length-ids_where (λ e. not (sel e)) plan.entries),
      omega (arith, length-ids_where (λ e. man e && not (sel e)) plan.entries),
      count_if-split man sel plan.entries,
    )

module _ (p : TestPlanEntry → Bool) where
  filter-nil-any : (es : List TestPlanEntry) → filter p es ≡ [] → any p es ≡ false
  unfolding filter any
  filter-nil-any [] h = refl
  filter-nil-any (e ∷ es) h = ground (arith, filter-nil-any es)

  filter-cons-any :
      (es : List TestPlanEntry) (f : TestPlanEntry) (fs : List TestPlanEntry)
      → filter p es ≡ f ∷ fs
      → any p es ≡ true
  unfolding filter any
  filter-cons-any [] f fs h = absurd (cc)
  filter-cons-any (e ∷ es) f fs h = ground (arith, filter-cons-any es f fs)

all_selected_iff :
    (es : List TestPlanEntry)
    → (all (λ e. e.selected) (filter (λ e. e.mandatory) es) ≡ true)
      ↔ (entry_ids (filter (λ e. e.mandatory && not e.selected) es) ≡ [])
unfolding filter all
all_selected_iff [] = (λ h. refl, λ h. refl)
all_selected_iff (e ∷ es) =
    let ih = all_selected_iff es in (λ h. ground (arith, ih.0), λ h. ground (arith, ih.1))

-- A plan permits certification exactly if it has a mandatory step and none is deselected.
pub is_eligible_by_selection_iff :
    (plan : TestPlan)
    → (is_eligible_by_selection plan ≡ true) ↔ (
        (any (λ (e : TestPlanEntry). e.mandatory) plan.entries ≡ true)
        × (deselected_mandatory_step_ids plan ≡ []))
unfolding is_eligible_by_selection deselected_mandatory_step_ids
is_eligible_by_selection_iff plan = go (filter (λ e. e.mandatory) plan.entries) refl
  where
    man : TestPlanEntry → Bool
    man e = e.mandatory

    go :
        (l : List TestPlanEntry)
        → filter (λ e. e.mandatory) plan.entries ≡ l
        → (all_selected l ≡ true) ↔ (
            (any (λ (e : TestPlanEntry). e.mandatory) plan.entries ≡ true)
            × (deselected_mandatory_step_ids plan ≡ []))
    go [] e =
        (λ h. absurd (cc), λ h. absurd (cc (filter-nil-any (λ e. e.mandatory) plan.entries e)))
    go (f ∷ fs) e =
        let iff = all_selected_iff plan.entries in
        (
          λ h. (filter-cons-any (λ e. e.mandatory) plan.entries f fs e, iff.0 (rw e h)),
          λ h. rw (← e) (iff.1 h.1),
        )

default-deselected :
    (steps : List V1Step)
    → entry_ids (filter (λ e. e.mandatory && not e.selected) (map default_entry steps)) ≡ []
unfolding filter
default-deselected [] = refl
default-deselected (s ∷ ss) = ground (arith, default-deselected ss)

any-default :
    (steps : List V1Step)
    → any (λ (e : TestPlanEntry). e.mandatory) (map default_entry steps)
      ≡ any (λ (s : V1Step). s.mandatory) steps
unfolding any
any-default [] = refl
any-default (s ∷ ss) = ground (arith, any-default ss)

default-entries :
    (m : Manifest)
    → m.schema_version ≡ "v1"
    → default_plan_from_manifest m ≡ record { entries = map default_entry m.steps }
unfolding default_plan_from_manifest
default-entries m v = ground (arith, eq_iff m.schema_version "v1")

deselected_none :
    (steps : List V1Step)
    → deselected_mandatory_step_ids (record { entries = map default_entry steps }) ≡ []
unfolding deselected_mandatory_step_ids
deselected_none steps = default-deselected steps

-- The default plan of a v1 manifest permits certification exactly if the manifest has a mandatory
-- step.
pub default_plan_eligible :
    (m : Manifest)
    → m.schema_version ≡ "v1"
    → (is_eligible_by_selection (default_plan_from_manifest m) ≡ true)
      ↔ (any (λ (s : V1Step). s.mandatory) m.steps ≡ true)
default_plan_eligible m v =
    let plan : TestPlan = record { entries = map default_entry m.steps } in
    let iff = is_eligible_by_selection_iff plan in
    rw (default-entries m v) (
      λ h. rw (← any-default m.steps) (iff.0 h).0,
      λ h. iff.1 (rw (any-default m.steps) h, deselected_none m.steps),
    )
