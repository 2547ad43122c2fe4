-- ===== src/Catalogue/Merge/Hidden.antt =====
-- The traces of a merged plan: what one area hides stays hidden.
use mathlib.Core.Path.{subst}
use conformance_suite_v.Base.{
  ℕ, zero, suc, String, ◌≡◌, refl, sym, ap, ◌∙◌, true, Option, none, some, List, [], ◌∷◌, Result,
  ok, >>=-eq-ok,
}
use conformance_suite_v.Base.Split.{get_elem?}
use conformance_suite_v.Base.Dict.{Dict, get, keys, values}
use conformance_suite_v.Catalogue.{CatalogueError}
use conformance_suite_v.Catalogue.Requirements.Combined.{places}
use conformance_suite_v.Catalogue.RuntimeInputs.{RuntimeInputTrace}
use conformance_suite_v.Catalogue.RuntimeInputs.Snapshot.{values_keyed}
use conformance_suite_v.Catalogue.Compiler.{CompiledTestPlan}
use conformance_suite_v.Catalogue.Merge.{
  Traces, merge_at, merge_traces, merge_snapshots, merge_runtime_input_snapshots,
}
use conformance_suite_v.Catalogue.Merge.Joined.{
  state_of, ok_inj, IsIndexed, Hides, IsNext, one_more,
}

-- After some traces, those of `Merged`: every one of them that is hidden stays so.
record IsAfter (d : Dict RuntimeInputTrace) (Merged : RuntimeInputTrace → Type 0) (s : Traces)
    : Type 0 where
  after : Dict RuntimeInputTrace
  stands : s ≡ state_of after
  indexed : IsIndexed after
  stays : (k : String) → Hides k d → Hides k after
  starts :
      (t : RuntimeInputTrace)
      → Merged t
      → t.sensitive ≡ true
      → t.value ≡ none
      → Hides t.input_id after

abbrev Among : List RuntimeInputTrace → RuntimeInputTrace → Type 0
Among ts t = (n : ℕ) × (get_elem? ts n ≡ some t)

abbrev AmongPlans : List CompiledTestPlan → RuntimeInputTrace → Type 0
AmongPlans plans t =
    (j : ℕ) × (p : CompiledTestPlan) × (get_elem? plans j ≡ some p)
    × Among p.traceability.runtime_input_snapshot t

Among-cons :
    (d : Dict RuntimeInputTrace) (next s : Traces) (t : RuntimeInputTrace)
    (ts : List RuntimeInputTrace) (first : IsNext d t next)
    (later : IsAfter first.after (Among ts) s) (u : RuntimeInputTrace) (n : ℕ)
    → get_elem? (t ∷ ts) n ≡ some u
    → u.sensitive ≡ true
    → u.value ≡ none
    → Hides u.input_id later.after
Among-cons d next s t ts first later u zero at hidden gone =
    let same : t ≡ u = cc in
    subst (λ (x : RuntimeInputTrace). Hides x.input_id later.after) same
      (later.stays t.input_id (first.starts (cc) (cc)))
Among-cons d next s t ts first later u (suc n) at hidden gone = later.starts u (n, at) hidden gone

all_traces :
    (ts : List RuntimeInputTrace) (d : Dict RuntimeInputTrace) (s : Traces)
    → merge_traces (state_of d) ts ≡ ok s
    → IsIndexed d
    → IsAfter d (Among ts) s
unfolding merge_traces
all_traces [] d s m v = record {
  after = d;
  stands = sym (ok_inj _ _ m);
  indexed = v;
  stays = λ k there. there;
  starts = λ t among hidden gone. absurd (cc (among.1));
}
all_traces (t ∷ ts) d s m v =
    let (next, one, rest) =
      >>=-eq-ok (merge_at (state_of d) t (get (places 0 d) t.input_id)) (λ x. merge_traces x ts)
        m in
    let first : IsNext d t next = one_more d t next (get d t.input_id) refl one v in
    let later : IsAfter first.after (Among ts) s =
      all_traces ts first.after s (subst (λ x. merge_traces x ts ≡ ok s) first.stands rest)
        (first.indexed v) in
    record {
      after = later.after;
      stands = later.stands;
      indexed = later.indexed;
      stays = λ k there. later.stays k (first.stays k there);
      starts =
          λ u among hidden gone. Among-cons d next s t ts first later u among.0 among.1 hidden gone;
    }

AmongPlans-cons :
    (d : Dict RuntimeInputTrace) (next s : Traces) (p : CompiledTestPlan)
    (plans : List CompiledTestPlan)
    (first : IsAfter d (Among p.traceability.runtime_input_snapshot) next)
    (later : IsAfter first.after (AmongPlans plans) s) (u : RuntimeInputTrace) (j : ℕ)
    (q : CompiledTestPlan)
    → get_elem? (p ∷ plans) j ≡ some q
    → Among q.traceability.runtime_input_snapshot u
    → u.sensitive ≡ true
    → u.value ≡ none
    → Hides u.input_id later.after
AmongPlans-cons d next s p plans first later u zero q at among hidden gone =
    let same : q ≡ p = cc in
    later.stays u.input_id (
      first.starts u
        (subst (λ (x : CompiledTestPlan). Among x.traceability.runtime_input_snapshot u) same among)
        hidden gone)
AmongPlans-cons d next s p plans first later u (suc j) q at among hidden gone =
    later.starts u (j, q, at, among) hidden gone

all_plans :
    (plans : List CompiledTestPlan) (d : Dict RuntimeInputTrace) (s : Traces)
    → merge_snapshots (state_of d) plans ≡ ok s
    → IsIndexed d
    → IsAfter d (AmongPlans plans) s
unfolding merge_snapshots
all_plans [] d s m v = record {
  after = d;
  stands = sym (ok_inj _ _ m);
  indexed = v;
  stays = λ k there. there;
  starts = λ t among hidden gone. absurd (cc (among.2));
}
all_plans (p ∷ plans) d s m v =
    let (next, one, rest) =
      >>=-eq-ok (merge_traces (state_of d) p.traceability.runtime_input_snapshot)
        (λ x. merge_snapshots x plans) m in
    let first : IsAfter d (Among p.traceability.runtime_input_snapshot) next =
      all_traces p.traceability.runtime_input_snapshot d next one v in
    let later : IsAfter first.after (AmongPlans plans) s =
      all_plans plans first.after s (subst (λ x. merge_snapshots x plans ≡ ok s) first.stands rest)
        first.indexed in
    record {
      after = later.after;
      stands = later.stands;
      indexed = later.indexed;
      stays = λ k there. later.stays k (first.stays k there);
      starts = λ u among hidden gone.
          AmongPlans-cons d next s p plans first later u among.0 among.1 among.2 among.3 hidden
            gone;
    }

nothing_merged : IsIndexed []
unfolding keys
nothing_merged = record { keyed = tt; distinct = tt }

merged_from_nothing :
    (plans : List CompiledTestPlan) (s : Traces)
    → merge_snapshots (record { traces = []; positions = [] }) plans ≡ ok s
    → IsAfter [] (AmongPlans plans) s
unfolding values places
merged_from_nothing plans s m = all_plans plans [] s m nothing_merged

-- When the traces of the areas' plans are merged, an input that one area says is sensitive, in a trace
-- that shows no value, has no trace that shows a value, and each of its traces says that it is
-- sensitive, whatever the other areas say of it.
pub merge_runtime_input_snapshots_hides :
    (plans : List CompiledTestPlan) (merged : List RuntimeInputTrace) (j n m : ℕ)
    (p : CompiledTestPlan) (t x : RuntimeInputTrace)
    → merge_runtime_input_snapshots plans ≡ ok merged
    → get_elem? plans j ≡ some p
    → get_elem? p.traceability.runtime_input_snapshot n ≡ some t
    → t.sensitive ≡ true
    → t.value ≡ none
    → get_elem? merged m ≡ some x
    → x.input_id ≡ t.input_id
    → (x.sensitive ≡ true) × (x.value ≡ none)
unfolding merge_runtime_input_snapshots
merge_runtime_input_snapshots_hides plans merged j n m p t x taken of_plan of_trace hidden gone at
      named =
    let (s, made, built) =
      >>=-eq-ok (merge_snapshots (record { traces = []; positions = [] }) plans)
        (λ (s : Traces). ok s.traces) taken in
    let a : IsAfter [] (AmongPlans plans) s = merged_from_nothing plans s made in
    let (e, stood, closed, empty) = a.starts t (j, p, of_plan, (n, of_trace)) hidden gone in
    let same_list : merged ≡ values a.after =
      list_inj merged s.traces (sym built) ∙ ap (λ (y : Traces). y.traces) a.stands in
    let found : get a.after x.input_id ≡ some x =
      values_keyed (λ (y : RuntimeInputTrace). y.input_id) a.after m x a.indexed.keyed
        a.indexed.distinct (subst (λ l. get_elem? l m ≡ some x) same_list at) in
    let same : e ≡ x = some_inj e x (sym stood ∙ subst (λ k. get a.after k ≡ some x) named found) in
    (
      subst (λ (y : RuntimeInputTrace). y.sensitive ≡ true) same closed,
      subst (λ (y : RuntimeInputTrace). y.value ≡ none) same empty,
    )
  where
    list_inj :
        (a b : List RuntimeInputTrace)
        → ◌≡◌ {A = Result CatalogueError (List RuntimeInputTrace)} (ok a) (ok b)
        → a ≡ b
    list_inj a b h = cc

    some_inj :
        (a b : RuntimeInputTrace) → ◌≡◌ {A = Option RuntimeInputTrace} (some a) (some b) → a ≡ b
    some_inj a b h = cc
