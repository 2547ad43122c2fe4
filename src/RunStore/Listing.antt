-- ===== src/RunStore/Listing.antt =====
-- The list of a run's browser actions (conformance/api/run_store.py).
use conformance_suite_v.Base.{
  String, ◌≡◌, refl, ◌∙◌, Bool, true, false, Option, none, some, List, [], ◌∷◌, arith,
  if◌then◌else◌, count_if,
}
use conformance_suite_v.Base.Dict.{get, values}
use conformance_suite_v.Base.Text.{text_leb-total}
use conformance_suite_v.RunStore.{
  ParticipantAction, RunRecord, RunStore, action_leb, insert_action, sort_actions,
  get_participant_actions,
}

-- each action was created no later than the next, and of two of the same time the step decides
abbrev pub IsOrdered : List ParticipantAction → Type 0
IsOrdered [] = Unit
IsOrdered (a ∷ []) = Unit
IsOrdered (a ∷ b ∷ actions) = (action_leb a b ≡ true) × IsOrdered (b ∷ actions)

action_leb-total : (a b : ParticipantAction) → action_leb a b ≡ false → action_leb b a ≡ true
action_leb-total a b h = ground (arith, text_leb-total a.step_id b.step_id)

order_pair :
    (a b : ParticipantAction) (t : Bool)
    → action_leb a b ≡ t
    → IsOrdered (if t then a ∷ b ∷ [] else b ∷ a ∷ [])
order_pair a b true h = (h, tt)
order_pair a b false h = (action_leb-total a b h, tt)

order_step :
    (a b c : ParticipantAction) (l m : List ParticipantAction) (t u : Bool)
    → action_leb a b ≡ t
    → action_leb a c ≡ u
    → IsOrdered (b ∷ c ∷ l)
    → IsOrdered (if u then a ∷ c ∷ l else c ∷ m)
    → IsOrdered (if t then a ∷ b ∷ c ∷ l else b ∷ (if u then a ∷ c ∷ l else c ∷ m))
order_step a b c l m true u h g s rest = (h, s)
order_step a b c l m false true h g s rest = (action_leb-total a b h, rest)
order_step a b c l m false false h g s rest = (s.0, rest)

insert_action-IsOrdered :
    (a : ParticipantAction) (l : List ParticipantAction)
    → IsOrdered l
    → IsOrdered (insert_action a l)
unfolding insert_action
insert_action-IsOrdered a [] s = tt
insert_action-IsOrdered a (b ∷ []) s = order_pair a b (action_leb a b) refl
insert_action-IsOrdered a (b ∷ c ∷ l) s =
    order_step a b c l (insert_action a l) (action_leb a b) (action_leb a c) refl refl s
      (insert_action-IsOrdered a (c ∷ l) s.1)

sort_actions-IsOrdered : (l : List ParticipantAction) → IsOrdered (sort_actions l)
unfolding sort_actions
sort_actions-IsOrdered [] = tt
sort_actions-IsOrdered (a ∷ l) =
    insert_action-IsOrdered a (sort_actions l) (sort_actions-IsOrdered l)

count_if-insert_action :
    (p : ParticipantAction → Bool) (a : ParticipantAction) (l : List ParticipantAction)
    → count_if p (insert_action a l) ≡ count_if p (a ∷ l)
unfolding insert_action count_if
count_if-insert_action p a [] = refl
count_if-insert_action p a (b ∷ l) = ground (arith, count_if-insert_action p a l)

count_if-sort_actions :
    (p : ParticipantAction → Bool) (l : List ParticipantAction)
    → count_if p (sort_actions l) ≡ count_if p l
unfolding sort_actions count_if
count_if-sort_actions p [] = refl
count_if-sort_actions p (a ∷ l) =
    count_if-insert_action p a (sort_actions l) ∙ ground (arith, count_if-sort_actions p l)

-- The actions of a run are listed in the order of their creation, those of the same time by their
-- step, and the list has as many actions of any kind as the run has.
pub get_participant_actions-IsOrdered :
    (k : String) (st : RunStore) (r : RunRecord) (p : ParticipantAction → Bool)
    → get st.runs k ≡ some r
    → IsOrdered (get_participant_actions k st)
      × (count_if p (get_participant_actions k st) ≡ count_if p (values r.participant_actions))
unfolding get_participant_actions
get_participant_actions-IsOrdered k st r p h = go (get st.runs k) h
  where
    go :
        (o : Option RunRecord)
        → o ≡ some r
        → IsOrdered (elim o as (λ _. List ParticipantAction) [
          | none ↦ []
          | some q ↦ sort_actions (values q.participant_actions)
        ])
          × (count_if p (elim o as (λ _. List ParticipantAction) [
            | none ↦ []
            | some q ↦ sort_actions (values q.participant_actions)
          ])
              ≡ count_if p (values r.participant_actions))
    go none e = absurd (cc)
    go (some q) e =
        let same : q ≡ r = cc in
        rw same (
          sort_actions-IsOrdered (values r.participant_actions),
          count_if-sort_actions p (values r.participant_actions),
        )
