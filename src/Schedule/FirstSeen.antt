-- ===== src/Schedule/FirstSeen.antt =====
-- The groups of the schedule in the order in which the manifest first names them
-- (conformance/execution_schedule.py).
use mathlib.Core.List.{append_assoc}
use conformance_suite_v.Base.{
  String, ◌≡◌, refl, ap, sym, ◌∙◌, Bool, true, false, not, ◌&&◌, ◌||◌, List, [], ◌∷◌, ◌++◌, map,
  arith, eq_iff, str_eq, if◌then◌else◌, elem, filter, Bool-cases, inl, inr,
}
use conformance_suite_v.Base.Dict.{has}
use conformance_suite_v.TestPlan.{StepPhase, setup, execution, V1Step}
use conformance_suite_v.Schedule.{Loop, visit}

abbrev pub is_setup : StepPhase → Bool
is_setup setup = true
is_setup execution = false

-- each text where it stands first
unfoldable pub first_seen : List String → List String
first_seen [] = []
first_seen (x ∷ xs) = x ∷ filter (λ y. not (str_eq x y)) (first_seen xs)

-- the selected execution steps
abbrev pub runs_later : List String → V1Step → Bool
runs_later selected s = elem s.id selected && not (is_setup s.phase)

-- the groups of these steps, in manifest order and as often as they stand there
unfoldable pub groups_named : List String → List V1Step → List String
unfolding filter
groups_named selected steps = map (λ (s : V1Step). s.group) (filter (runs_later selected) steps)

abbrev pub outside : List String → String → Bool
outside seen y = not (elem y seen)

filter-filter :
    (p q : String → Bool) (xs : List String) → filter p (filter q xs) ≡ filter (λ y. q y && p y) xs
unfolding filter
filter-filter p q [] = refl
filter-filter p q (x ∷ xs) = ground (arith, filter-filter p q xs)

filter_ext :
    (p q : String → Bool) (xs : List String)
    → ((y : String) → p y ≡ q y)
    → filter p xs ≡ filter q xs
unfolding filter
filter_ext p q [] h = refl
filter_ext p q (x ∷ xs) h = ground (arith, h x, filter_ext p q xs h)

pub filter_all : (xs : List String) → filter (outside []) xs ≡ xs
unfolding filter elem
filter_all [] = refl
filter_all (x ∷ xs) = ap (λ l. x ∷ l) (filter_all xs)

elem-concat : (y g : String) (xs : List String) → elem y (xs ++ g ∷ []) ≡ (elem y xs || str_eq y g)
unfolding elem
elem-concat y g [] = ground arith
elem-concat y g (x ∷ xs) = ground (arith, elem-concat y g xs)

-- what the rest of the loop lists, when the next step belongs to a group that was seen, and when not
seen_again :
    (seen xs : List String) (g : String)
    → elem g seen ≡ true
    → filter (outside seen) (first_seen (g ∷ xs)) ≡ filter (outside seen) (first_seen xs)
unfolding first_seen filter
seen_again seen xs g h = rw h (
    filter-filter (outside seen) (λ y. not (str_eq g y)) (first_seen xs)
    ∙ filter_ext (λ y. not (str_eq g y) && outside seen y) (outside seen) (first_seen xs)
        (λ y. ground (arith, eq_iff g y)))

seen_new :
    (seen xs : List String) (g : String)
    → elem g seen ≡ false
    → seen ++ filter (outside seen) (first_seen (g ∷ xs))
      ≡ (seen ++ g ∷ []) ++ filter (outside (seen ++ g ∷ [])) (first_seen xs)
unfolding first_seen filter
seen_new seen xs g h = rw h (
    ap (λ l. seen ++ g ∷ l)
      (filter-filter (outside seen) (λ y. not (str_eq g y)) (first_seen xs)
        ∙ filter_ext (λ y. not (str_eq g y) && outside seen y) (outside (seen ++ g ∷ []))
            (first_seen xs) (λ y. ground (arith, elem-concat y g seen, eq_iff g y, eq_iff y g)))
    ∙ sym (append_assoc seen (g ∷ []) (filter (outside (seen ++ g ∷ [])) (first_seen xs))))

module _ (selected : List String) (s : V1Step) where
  named-cons :
      (ss : List V1Step)
      → groups_named selected (s ∷ ss) ≡ (
          if runs_later selected s
          then s.group ∷ groups_named selected ss
          else groups_named selected ss)
  unfolding groups_named filter
  named-cons ss = ground arith

  visit-group_order :
      (l : Loop)
      → (visit selected s l).group_order ≡ (
          if runs_later selected s && not (has l.grouped_steps s.group)
          then l.group_order ++ s.group ∷ []
          else l.group_order)
  visit-group_order l = ground arith

  -- one step more
  pub visit-first_seen :
      (ss : List V1Step) (l : Loop)
      → ((g : String) → elem g l.group_order ≡ has l.grouped_steps g)
      → (visit selected s l).group_order
          ++ filter
              (outside (visit selected s l).group_order)
              (first_seen (groups_named selected ss))
        ≡ l.group_order
          ++ filter (outside l.group_order) (first_seen (groups_named selected (s ∷ ss)))
  visit-first_seen ss l listed =
      rw (visit-group_order l, named-cons ss, ← listed s.group)
        (elim (Bool-cases (runs_later selected s)) [
          | inr e ↦ rw e refl
          | inl e ↦ elim (Bool-cases (elem s.group l.group_order)) [
            | inl old ↦
                rw (e, old)
                  (ap (λ x. l.group_order ++ x)
                    (sym (seen_again l.group_order (groups_named selected ss) s.group old)))
            | inr new ↦
                rw (e, new) (sym (seen_new l.group_order (groups_named selected ss) s.group new))
          ]
        ])
