-- ===== src/Schedule/Groups.antt =====
-- The schedule against a description that filters the manifest.
use mathlib.Core.List.{append_assoc, append-nil}
use conformance_suite_v.Base.{
  String, ◌≡◌, refl, ap, sym, ◌∙◌, Bool, false, not, ◌&&◌, ◌||◌, List, [], ◌∷◌, ◌++◌, map, arith,
  eq_iff, str_eq, if◌then◌else◌, elem, filter, any, All, Bool-cases, inl, inr,
}
use conformance_suite_v.Base.Dict.{Dict, get, has, get-put}
use conformance_suite_v.Base.Dict.Distinct.{Distinct}
use conformance_suite_v.TestPlan.{
  StepPhase, setup, execution, V1Step, Manifest, TestPlan, selected_step_ids,
}
use conformance_suite_v.Schedule.FirstSeen.{
  is_setup, first_seen, groups_named, outside, filter_all, visit-first_seen,
}
use conformance_suite_v.Schedule.{
  ExecutionGroup, ExecutionSchedule, Loop, start, or_empty, place, visit, loop, group_of, finish,
  build_execution_schedule,
}

-- the steps that the schedule puts first
abbrev pub runs_first : List String → V1Step → Bool
runs_first selected s = elem s.id selected && is_setup s.phase

-- the steps that it puts into a group
abbrev pub runs_in : List String → String → V1Step → Bool
runs_in selected g s = elem s.id selected && (not (is_setup s.phase) && str_eq s.group g)

abbrev single : (V1Step → Bool) → V1Step → List V1Step
single p s = if p s then s ∷ [] else []

filter-cons :
    (p : V1Step → Bool) (s : V1Step) (ss : List V1Step)
    → filter p (s ∷ ss) ≡ single p s ++ filter p ss
unfolding filter
filter-cons p s ss = ground arith

module _ (selected : List String) where
  visit-setup :
      (s : V1Step) (l : Loop)
      → (visit selected s l).setup_steps ≡ l.setup_steps ++ single (runs_first selected) s
  visit-setup s l = ground (arith, append-nil l.setup_steps)

  loop-setup :
      (steps : List V1Step) (l : Loop)
      → (loop selected steps l).setup_steps ≡ l.setup_steps ++ filter (runs_first selected) steps
  unfolding loop
  loop-setup [] l = unfold filter in sym (append-nil _)
  loop-setup (s ∷ steps) l = rw filter-cons (
      loop-setup steps (visit selected s l)
      ∙ ap (λ x. x ++ filter (runs_first selected) steps) (visit-setup s l)
      ∙ append_assoc l.setup_steps (single (runs_first selected) s)
          (filter (runs_first selected) steps))

  visit-group :
      (s : V1Step) (l : Loop) (g : String)
      → or_empty (get (visit selected s l).grouped_steps g)
        ≡ or_empty (get l.grouped_steps g) ++ single (runs_in selected g) s
  visit-group s l g = ground (
    arith,
    append-nil (or_empty (get l.grouped_steps g)),
    eq_iff s.group g,
    get-put l.grouped_steps s.group g (or_empty (get l.grouped_steps s.group) ++ s ∷ []),
  )

  loop-group :
      (steps : List V1Step) (l : Loop) (g : String)
      → or_empty (get (loop selected steps l).grouped_steps g)
        ≡ or_empty (get l.grouped_steps g) ++ filter (runs_in selected g) steps
  unfolding loop
  loop-group [] l g = unfold filter in sym (append-nil _)
  loop-group (s ∷ steps) l g = rw filter-cons (
      loop-group steps (visit selected s l) g
      ∙ ap (λ x. x ++ filter (runs_in selected g) steps) (visit-group s l g)
      ∙ append_assoc (or_empty (get l.grouped_steps g)) (single (runs_in selected g) s)
          (filter (runs_in selected g) steps))

-- the groups are listed once each, and are those that have an entry
record IsOrder (l : Loop) : Type 0 where
  distinct : Distinct l.group_order
  listed : (g : String) → elem g l.group_order ≡ has l.grouped_steps g

elem-append : (g : String) (xs ys : List String) → elem g (xs ++ ys) ≡ (elem g xs || elem g ys)
unfolding elem
elem-append g [] ys = refl
elem-append g (x ∷ xs) ys = ground (arith, elem-append g xs ys)

Distinct-concat :
    (xs : List String) (g : String) → elem g xs ≡ false → Distinct xs → Distinct (xs ++ g ∷ [])
unfolding elem
Distinct-concat [] g h d = (refl, tt)
Distinct-concat (x ∷ xs) g h d =
    ground (arith, eq_iff g x, eq_iff x g, elem-append x xs (g ∷ []), Distinct-concat xs g)

module _ (selected : List String) where
  place-IsOrder : (s : V1Step) (p : StepPhase) (l : Loop) → IsOrder l → IsOrder (place s p l)
  unfolding elem
  place-IsOrder s setup l o = record { distinct = o.distinct; listed = o.listed }
  place-IsOrder s execution l o = record {
    distinct = ground (arith, o.distinct, o.listed s.group, Distinct-concat l.group_order s.group);
    listed = λ g. ground (
      arith,
      o.listed g,
      o.listed s.group,
      eq_iff s.group g,
      eq_iff g s.group,
      elem-append g l.group_order (s.group ∷ []),
      get-put l.grouped_steps s.group g (or_empty (get l.grouped_steps s.group) ++ s ∷ []),
    );
  }

  visit-IsOrder : (s : V1Step) (l : Loop) → IsOrder l → IsOrder (visit selected s l)
  visit-IsOrder s l o = elim (Bool-cases (elem s.id selected)) [
    | inl e ↦ rw e (place-IsOrder s s.phase l o)
    | inr e ↦ rw e o
  ]

  loop-IsOrder : (steps : List V1Step) (l : Loop) → IsOrder l → IsOrder (loop selected steps l)
  unfolding loop
  loop-IsOrder [] l o = o
  loop-IsOrder (s ∷ steps) l o = loop-IsOrder steps (visit selected s l) (visit-IsOrder s l o)

  -- the groups are listed as their first steps come
  loop-first_seen :
      (steps : List V1Step) (l : Loop)
      → IsOrder l
      → (loop selected steps l).group_order
        ≡ l.group_order ++ filter (outside l.group_order) (first_seen (groups_named selected steps))
  unfolding loop
  loop-first_seen [] l o = unfold groups_named first_seen filter in sym (append-nil l.group_order)
  loop-first_seen (s ∷ steps) l o =
      loop-first_seen steps (visit selected s l) (visit-IsOrder s l o)
      ∙ visit-first_seen selected s steps l o.listed

  -- a group is there exactly if a step was put into it
  visit-has :
      (s : V1Step) (l : Loop) (g : String)
      → has (visit selected s l).grouped_steps g ≡ (has l.grouped_steps g || runs_in selected g s)
  visit-has s l g = ground (
    arith,
    eq_iff s.group g,
    get-put l.grouped_steps s.group g (or_empty (get l.grouped_steps s.group) ++ s ∷ []),
  )

  loop-has :
      (steps : List V1Step) (l : Loop) (g : String)
      → has (loop selected steps l).grouped_steps g
        ≡ (has l.grouped_steps g || any (runs_in selected g) steps)
  unfolding loop any
  loop-has [] l g = ground arith
  loop-has (s ∷ steps) l g = ground (arith, loop-has steps (visit selected s l) g, visit-has s l g)

abbrev pub group_ids : List ExecutionGroup → List String
group_ids = map (λ x. x.group_id)

-- a schedule, described by filters on the manifest
pub record IsSchedule (m : Manifest) (selected : List String) (s : ExecutionSchedule) : Type 0 where
  pub setups : s.setup_steps ≡ filter (runs_first selected) m.steps
  pub groups : All (λ x. x.steps ≡ filter (runs_in selected x.group_id) m.steps) s.execution_groups
  pub order : group_ids s.execution_groups ≡ first_seen (groups_named selected m.steps)
  pub distinct : Distinct (group_ids s.execution_groups)
  pub complete :
      (g : String) → elem g (group_ids s.execution_groups) ≡ any (runs_in selected g) m.steps

group_ids-group_of :
    (d : Dict (List V1Step)) (ids : List String) → group_ids (map (group_of d) ids) ≡ ids
group_ids-group_of d [] = refl
group_ids-group_of d (i ∷ ids) = ap (λ l. i ∷ l) (group_ids-group_of d ids)

All-group_of :
    (d : Dict (List V1Step)) (f : String → List V1Step) (ids : List String)
    → ((g : String) → or_empty (get d g) ≡ f g)
    → All (λ x. x.steps ≡ f x.group_id) (map (group_of d) ids)
All-group_of d f [] h = tt
All-group_of d f (i ∷ ids) h = (h i, All-group_of d f ids h)

start-IsOrder : IsOrder start
unfolding elem get
start-IsOrder = record { distinct = tt; listed = λ g. refl }

schedule-of_v1 :
    (m : Manifest) (plan : TestPlan)
    → m.schema_version ≡ "v1"
    → build_execution_schedule m plan ≡ finish (loop (selected_step_ids plan) m.steps start)
unfolding build_execution_schedule
schedule-of_v1 m plan v = ground (arith, eq_iff m.schema_version "v1")

-- For a v1 manifest, `build_execution_schedule` lists the selected setup steps in manifest order;
-- it lists each group once, exactly the groups of the selected execution steps, and these in the
-- order in which the manifest first names them in such a step; and in each group stand the selected
-- execution steps of that group in manifest order.
pub build_execution_schedule-IsSchedule :
    (m : Manifest) (plan : TestPlan)
    → m.schema_version ≡ "v1"
    → IsSchedule m (selected_step_ids plan) (build_execution_schedule m plan)
build_execution_schedule-IsSchedule m plan v =
    let ids = selected_step_ids plan in
    let l = loop ids m.steps start in
    let o = loop-IsOrder ids m.steps start start-IsOrder in
    rw (schedule-of_v1 m plan v) (record {
      setups = loop-setup ids m.steps start;
      groups =
          All-group_of l.grouped_steps (λ g. filter (runs_in ids g) m.steps) l.group_order
            (unfold get in loop-group ids m.steps start);
      order = rw group_ids-group_of (
          loop-first_seen ids m.steps start start-IsOrder
          ∙ filter_all (first_seen (groups_named ids m.steps)));
      distinct = rw group_ids-group_of o.distinct;
      complete =
          λ g. rw group_ids-group_of (o.listed g ∙ (unfold get in loop-has ids m.steps start g));
    })
