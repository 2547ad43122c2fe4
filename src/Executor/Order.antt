-- ===== src/Executor/Order.antt =====
-- The order in which the results of the groups are put (conformance/executor.py): that of the manifest.
use conformance_suite_v.Base.{
  ℕ, suc, ◌+◌, ◌≤◌, ◌<◌, String, ◌≡◌, refl, ap, sym, ◌∙◌, Bool, true, false, not, ◌&&◌, ◌||◌, none,
  some, List, [], ◌∷◌, ◌++◌, arith, eq_iff, str_eq, length, elem, filter, any, count_if, All,
  Bool-cases, inl, inr,
}
use conformance_suite_v.Base.Dict.{Dict, get, put, get-put}
use conformance_suite_v.Base.Dict.Distinct.{Distinct}
use conformance_suite_v.Base.Sort.{sort_by, sort_by-IsSortedBy}
use conformance_suite_v.Base.Counting.{count, count-append, count-sort_by, IsStrict, strict_unique}
use conformance_suite_v.TestPlan.{V1Step, Manifest}
use conformance_suite_v.Schedule.{ExecutionGroup, ExecutionSchedule}
use conformance_suite_v.Schedule.FirstSeen.{is_setup}
use conformance_suite_v.Schedule.Groups.{runs_in, group_ids, IsSchedule}
use conformance_suite_v.Executor.{order_from, manifest_order}
use conformance_suite_v.Executor.Workers.{ids}
use conformance_suite_v.Executor.Turns.{group_steps}

-- the selected steps that are no setup steps
abbrev pub runs_later : List String → V1Step → Bool
runs_later selected s = elem s.id selected && not (is_setup s.phase)

pub ids-append : (xs ys : List V1Step) → ids (xs ++ ys) ≡ ids xs ++ ids ys
ids-append [] ys = refl
ids-append (x ∷ xs) ys = ap (λ l. x.id ∷ l) (ids-append xs ys)

count-filter :
    (a : String) (p : V1Step → Bool) (steps : List V1Step)
    → count a (ids (filter p steps)) ≡ count_if (λ s. p s && str_eq a s.id) steps
unfolding filter count_if
count-filter a p [] = refl
count-filter a p (s ∷ steps) = ground (arith, count-filter a p steps)

module _ (selected : List String) (a : String) where
  -- the steps of one group are counted once
  count-split :
      (g : String) (gs : List String) (steps : List V1Step)
      → elem g gs ≡ false
      → count_if (λ s. runs_in selected g s && str_eq a s.id) steps
          + count_if (λ s. runs_later selected s && elem s.group gs && str_eq a s.id) steps
        ≡ count_if (λ s. runs_later selected s && elem s.group (g ∷ gs) && str_eq a s.id) steps
  unfolding count_if elem
  count-split g gs [] h = refl
  count-split g gs (s ∷ steps) h = ground (arith, eq_iff s.group g, count-split g gs steps h)

  count-none :
      (steps : List V1Step)
      → count_if (λ s. runs_later selected s && elem s.group [] && str_eq a s.id) steps ≡ 0
  unfolding count_if elem
  count-none [] = refl
  count-none (s ∷ steps) = ground (arith, count-none steps)

  count-groups :
      (steps : List V1Step) (groups : List ExecutionGroup)
      → All (λ x. x.steps ≡ filter (runs_in selected x.group_id) steps) groups
      → Distinct (group_ids groups)
      → count a (ids (group_steps groups))
        ≡ count_if
            (λ s. runs_later selected s && elem s.group (group_ids groups) && str_eq a s.id)
            steps
  unfolding count_if
  count-groups steps [] h d = sym (unfold count_if in count-none steps)
  count-groups steps (g ∷ groups) (e, h) (new, d) =
      ap (count a) (ids-append g.steps (group_steps groups))
      ∙ count-append a (ids g.steps) (ids (group_steps groups))
      ∙ omega (
        arith,
        ap (λ l. count a (ids l)) e,
        count-filter a (runs_in selected g.group_id) steps,
        count-groups steps groups h d,
        count-split g.group_id (group_ids groups) steps new,
      )

  -- every such step has its group
  count_complete :
      (gs : List String) (steps : List V1Step)
      → All (λ s. not (runs_later selected s) || elem s.group gs ≡ true) steps
      → count_if (λ s. runs_later selected s && elem s.group gs && str_eq a s.id) steps
        ≡ count_if (λ s. runs_later selected s && str_eq a s.id) steps
  unfolding count_if
  count_complete gs [] h = refl
  count_complete gs (s ∷ steps) (e, h) = ground (arith, count_complete gs steps h)

has_group :
    (selected gs : List String) (steps : List V1Step)
    → ((g : String) → any (runs_in selected g) steps ≡ true → elem g gs ≡ true)
    → All (λ s. not (runs_later selected s) || elem s.group gs ≡ true) steps
unfolding any
has_group selected gs [] h = tt
has_group selected gs (s ∷ steps) h = (
  ground (arith, eq_iff s.group s.group, h s.group),
  has_group selected gs steps (λ g e. h g (ground arith)),
)

abbrev index_in : Dict ℕ → String → ℕ
index_in d name = elim (get d name) [ none ↦ length d | some n ↦ n ]

order_from_missing :
    (n : ℕ) (steps : List V1Step) (d : Dict ℕ) (i : String)
    → elem i (ids steps) ≡ false
    → get (order_from n steps d) i ≡ get d i
unfolding order_from elem
order_from_missing n [] d i h = refl
order_from_missing n (s ∷ steps) d i h =
    order_from_missing (suc n) steps (put d s.id n) i (ground arith)
    ∙ ground (arith, eq_iff i s.id, eq_iff s.id i, get-put d s.id i n)

-- the steps of a list are numbered from this number on
abbrev IsNumbered : ℕ → Dict ℕ → List V1Step → Type 0
IsNumbered n d steps = All (λ s. n ≤ index_in d s.id) steps

weaken :
    (n : ℕ) (d : Dict ℕ) (steps : List V1Step) → IsNumbered (suc n) d steps → IsNumbered n d steps
weaken n d [] h = tt
weaken n d (s ∷ steps) (e, h) = (omega arith, weaken n d steps h)

strictly :
    (n : ℕ) (d : Dict ℕ) (steps : List V1Step) (i : String)
    → index_in d i ≡ n
    → IsNumbered (suc n) d steps
    → All (λ y. index_in d i < index_in d y) (ids steps)
strictly n d [] i e h = tt
strictly n d (s ∷ steps) i e (k, h) = (omega arith, strictly n d steps i e h)

first_index :
    (n : ℕ) (s : V1Step) (steps : List V1Step) (d : Dict ℕ)
    → elem s.id (ids steps) ≡ false
    → index_in (order_from (suc n) steps (put d s.id n)) s.id ≡ n
first_index n s steps d h = ground (
  arith,
  eq_iff s.id s.id,
  order_from_missing (suc n) steps (put d s.id n) s.id h,
  get-put d s.id s.id n,
)

order_from-IsNumbered :
    (n : ℕ) (steps : List V1Step) (d : Dict ℕ)
    → Distinct (ids steps)
    → IsNumbered n (order_from n steps d) steps
      × IsStrict (index_in (order_from n steps d)) (ids steps)
unfolding order_from
order_from-IsNumbered n [] d h = (tt, tt)
order_from-IsNumbered n (s ∷ steps) d (new, h) =
    let d' = order_from (suc n) steps (put d s.id n) in
    let (numbered, strict) = order_from-IsNumbered (suc n) steps (put d s.id n) h in
    let first = first_index n s steps d new in
    (
      (omega (arith, first), weaken n d' steps numbered),
      (strictly n d' steps s.id first numbered, strict),
    )

All-filter_ids :
    (P : String → Type 0) (p : V1Step → Bool) (steps : List V1Step)
    → All P (ids steps)
    → All P (ids (filter p steps))
unfolding filter
All-filter_ids P p [] h = tt
All-filter_ids P p (s ∷ steps) (e, h) = elim (Bool-cases (p s)) [
  | inl t ↦ rw t (e, All-filter_ids P p steps h)
  | inr t ↦ rw t (All-filter_ids P p steps h)
]

filter-IsStrict :
    (key : String → ℕ) (p : V1Step → Bool) (steps : List V1Step)
    → IsStrict key (ids steps)
    → IsStrict key (ids (filter p steps))
unfolding filter
filter-IsStrict key p [] h = tt
filter-IsStrict key p (s ∷ steps) (e, h) = elim (Bool-cases (p s)) [
  | inl t ↦ rw t (All-filter_ids (λ y. key s.id < key y) p steps e, filter-IsStrict key p steps h)
  | inr t ↦ rw t (filter-IsStrict key p steps h)
]

manifest_order-IsStrict :
    (p : V1Step → Bool) (steps : List V1Step)
    → Distinct (ids steps)
    → IsStrict (manifest_order steps) (ids (filter p steps))
unfolding manifest_order
manifest_order-IsStrict p steps d =
    filter-IsStrict (index_in (order_from 0 steps [])) p steps
      (order_from-IsNumbered 0 steps [] d).1

-- Sorted by the manifest, the identifiers of the steps of all groups are those of the selected steps
-- that are no setup steps, as the manifest lists them.
pub sort_by-group_steps :
    (m : Manifest) (selected : List String) (s : ExecutionSchedule)
    → Distinct (ids m.steps)
    → IsSchedule m selected s
    → sort_by (manifest_order m.steps) (ids (group_steps s.execution_groups))
      ≡ ids (filter (runs_later selected) m.steps)
sort_by-group_steps m selected s d schedule =
    let key = manifest_order m.steps in
    let found = ids (group_steps s.execution_groups) in
    let gs = group_ids s.execution_groups in
    let has = has_group selected gs m.steps (λ g e. schedule.complete g ∙ e) in
    strict_unique key (sort_by key found) (ids (filter (runs_later selected) m.steps))
      (sort_by-IsSortedBy key found) (manifest_order-IsStrict (runs_later selected) m.steps d)
      (λ a.
        count-sort_by key a found
        ∙ count-groups selected a m.steps s.execution_groups schedule.groups schedule.distinct
        ∙ count_complete selected a gs m.steps has
        ∙ sym (count-filter a (runs_later selected) m.steps))
