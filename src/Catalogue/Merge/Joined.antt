-- ===== src/Catalogue/Merge/Joined.antt =====
-- One more trace in a merge: the list and the positions hold a dictionary of traces.
use mathlib.Core.Path.{subst}
use conformance_suite_v.Base.{
  ℕ, ◌+◌, String, ◌≡◌, ◌⊎◌, inl, inr, refl, sym, ap, ◌∙◌, true, ◌||◌, Option, none, some, length,
  Result, ok, >>=-eq-ok, arith, eq_iff, eq_refl, str_eq, All, Bool-cases,
}
use conformance_suite_v.Base.Split.{get_elem?}
use conformance_suite_v.Base.Dict.{Dict, get, put, keys, values, get-put, All-put, All-get}
use conformance_suite_v.Base.Dict.Distinct.{Distinct, Distinct-put}
use conformance_suite_v.Catalogue.{CatalogueError}
use conformance_suite_v.Catalogue.Requirements.{set}
use conformance_suite_v.Catalogue.Requirements.Combined.{
  places, get-places-none, places-put_new, places-put_old, values-put_new, values-put_old,
}
use conformance_suite_v.Catalogue.RuntimeInputs.{RuntimeInputTrace}
use conformance_suite_v.Catalogue.Merge.{Traces, merge_runtime_input_trace, merge_at, merge_over}

-- The two variables, when they hold a dictionary of traces.
abbrev pub state_of : Dict RuntimeInputTrace → Traces
state_of d = record { traces = values d; positions = places 0 d }

-- What a trace becomes in the dictionary.
abbrev Joined : Dict RuntimeInputTrace → RuntimeInputTrace → RuntimeInputTrace → Type 0
Joined d t x =
    ((get d t.input_id ≡ none) × (t ≡ x))
    ⊎ ((e : RuntimeInputTrace) × (get d t.input_id ≡ some e)
        × (merge_runtime_input_trace e t ≡ ok x))

pub ok_inj : (a b : Traces) → ◌≡◌ {A = Result CatalogueError Traces} (ok a) (ok b) → a ≡ b
ok_inj a b h = cc

joins_new :
    (d : Dict RuntimeInputTrace) (t : RuntimeInputTrace) (s : Traces)
    → get d t.input_id ≡ none
    → merge_at (state_of d) t (get (places 0 d) t.input_id) ≡ ok s
    → s ≡ state_of (put d t.input_id t)
joins_new d t s h m =
    let e : merge_at (state_of d) t none ≡ ok s =
      subst (λ x. merge_at (state_of d) t x ≡ ok s) (get-places-none 0 d t.input_id h) m in
    let from_zero : 0 + length (values d) ≡ length (values d) = omega arith in
    rw (places-put_new 0 d t.input_id t h, values-put_new d t.input_id t h, from_zero)
      (sym (ok_inj _ _ e))

old_state :
    (d : Dict RuntimeInputTrace) (k : String) (e x : RuntimeInputTrace) (p : ℕ)
    → get d k ≡ some e
    → get (places 0 d) k ≡ some (0 + p)
    → ◌≡◌ {A = Traces}
        (record { traces = set (values d) p x; positions = places 0 d })
        (state_of (put d k x))
old_state d k e x p h place =
    let (q, place_q, written, _) = values-put_old 0 d k x e h in
    let both : some (0 + p) ≡ some (0 + q) = sym place ∙ place_q in
    let same : p ≡ q = ground arith in rw (same, written, places-put_old 0 d k x e h) refl

joins_old :
    (d : Dict RuntimeInputTrace) (t e : RuntimeInputTrace) (s : Traces)
    → get d t.input_id ≡ some e
    → merge_at (state_of d) t (get (places 0 d) t.input_id) ≡ ok s
    → (x : RuntimeInputTrace) × (merge_runtime_input_trace e t ≡ ok x)
      × (s ≡ state_of (put d t.input_id x))
joins_old d t e s h m =
    let (p, place, _, stood) = values-put_old 0 d t.input_id e e h in
    let at_p : merge_over (state_of d) p t (get_elem? (values d) p) ≡ ok s =
      subst (λ x. merge_at (state_of d) t x ≡ ok s) (place ∙ ap some (omega arith)) m in
    let over : merge_over (state_of d) p t (some e) ≡ ok s =
      subst (λ x. merge_over (state_of d) p t x ≡ ok s) stood at_p in
    let (x, merged, built) =
      >>=-eq-ok (merge_runtime_input_trace e t)
        (λ merged. ok (record (state_of d) { traces = set (values d) p merged })) over in
    (x, merged, sym (ok_inj _ _ built) ∙ old_state d t.input_id e x p h place)

module _ (t e x : RuntimeInputTrace) (merged : merge_runtime_input_trace e t ≡ ok x) where
  merged_named : x.input_id ≡ e.input_id
  unfolding merge_runtime_input_trace
  merged_named = ground arith

  merged_hides : (e.sensitive || t.sensitive) ≡ true → (x.sensitive ≡ true) × (x.value ≡ none)
  unfolding merge_runtime_input_trace
  merged_hides h = ground arith

-- Each trace stands under its identifier, and each identifier once.
pub record IsIndexed (d : Dict RuntimeInputTrace) : Type 0 where
  pub keyed : All (λ (p : String × RuntimeInputTrace). p.1.input_id ≡ p.0) d
  pub distinct : Distinct (keys d)

-- The dictionary has a trace under `k` that shows no value.
abbrev pub Hides : String → Dict RuntimeInputTrace → Type 0
Hides k d = (e : RuntimeInputTrace) × (get d k ≡ some e) × (e.sensitive ≡ true) × (e.value ≡ none)

get-put_self :
    (d : Dict RuntimeInputTrace) (k : String) (e : RuntimeInputTrace) → get (put d k e) k ≡ some e
get-put_self d k e = rw (get-put d k k e, eq_refl k) refl

put-IsIndexed :
    (d : Dict RuntimeInputTrace) (k : String) (e : RuntimeInputTrace)
    → e.input_id ≡ k
    → IsIndexed d
    → IsIndexed (put d k e)
put-IsIndexed d k e h v = record {
  keyed = All-put (λ (p : String × RuntimeInputTrace). p.1.input_id ≡ p.0) d k e h v.keyed;
  distinct = Distinct-put d k e v.distinct;
}

-- One more trace: what the dictionary becomes, and what stays hidden.
pub record IsNext (d : Dict RuntimeInputTrace) (t : RuntimeInputTrace) (s : Traces) : Type 0 where
  pub after : Dict RuntimeInputTrace
  pub stands : s ≡ state_of after
  pub indexed : IsIndexed d → IsIndexed after
  pub stays : (k : String) → Hides k d → Hides k after
  pub starts : t.sensitive ≡ true → t.value ≡ none → Hides t.input_id after

put-Hides :
    (d : Dict RuntimeInputTrace) (k j : String) (x : RuntimeInputTrace)
    → (str_eq j k ≡ true → (x.sensitive ≡ true) × (x.value ≡ none))
    → Hides k d
    → Hides k (put d j x)
put-Hides d k j x here (e, stood, hidden, gone) = elim (Bool-cases (str_eq j k)) [
  | inl same ↦ (x, rw (get-put d j k x, same) refl, (here same).0, (here same).1)
  | inr other ↦ (e, rw (get-put d j k x, other) stood, hidden, gone)
]

pub one_more :
    (d : Dict RuntimeInputTrace) (t : RuntimeInputTrace) (s : Traces)
    (found : Option RuntimeInputTrace)
    → get d t.input_id ≡ found
    → merge_at (state_of d) t (get (places 0 d) t.input_id) ≡ ok s
    → IsIndexed d
    → IsNext d t s
one_more d t s none h m v = record {
  after = put d t.input_id t;
  stands = joins_new d t s h m;
  indexed = put-IsIndexed d t.input_id t refl;
  stays = λ k there.
      put-Hides d k t.input_id t (λ same. absurd (ground (arith, there.1, eq_iff t.input_id k)))
        there;
  starts = λ hidden gone. (t, get-put_self d t.input_id t, hidden, gone);
}
one_more d t s (some e) h m v =
    let (x, merged, stands) = joins_old d t e s h m in
    let named : x.input_id ≡ t.input_id =
      merged_named t e x merged
      ∙ All-get (λ (p : String × RuntimeInputTrace). p.1.input_id ≡ p.0) d t.input_id e v.keyed h in
    record {
      after = put d t.input_id x;
      stands = stands;
      indexed = put-IsIndexed d t.input_id x named;
      stays = λ k there.
          put-Hides d k t.input_id x
            (λ same.
              merged_hides t e x merged (ground (arith, there.1, there.2, eq_iff t.input_id k)))
            there;
      starts = λ hidden gone.
          let both = merged_hides t e x merged (ground (arith, hidden)) in
          (x, get-put_self d t.input_id x, both.0, both.1);
    }
