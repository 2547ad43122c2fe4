-- ===== src/Catalogue/Ordering/Total.antt =====
-- `ordered_case_ids` always ends, with an order of what is needed or with a true fault.
use conformance_suite_v.Base.{
  ℕ, zero, suc, ◌≤◌, ◌<◌, String, ◌≡◌, refl, ap, ◌∙◌, ◌>>=◌, true, false, not, Option, none, some,
  List, [], ◌∷◌, Result, ok, err, arith, eq_iff, str_eq, elem, count_if, length, All, Bool-cases,
  Option-cases, inl, inr,
}
use conformance_suite_v.Base.Dict.{Dict, get, keys}
use conformance_suite_v.Base.Dict.Distinct.{elem-keys}
use conformance_suite_v.Catalogue.{CatalogueTestCase, CatalogueError}
use conformance_suite_v.Catalogue.Ordering.{
  State, start, add_edge, enter, visit_each, visit_case, visit, roots, ordered_case_ids,
}
use conformance_suite_v.Catalogue.Ordering.Paths.{deps_of, DependsOn, direct, chain, Extends}
use conformance_suite_v.Catalogue.Ordering.Sound.{
  IsNeeded, root, needed, Suits, IsFault, Inv, Outcome, OutcomeEach, visit_each-Outcome,
  add_edge-Inv, After-add_edge, visit_found-Outcome,
}

-- how many of the names `ks` are not on the stack
abbrev off_stack : List String → List String → ℕ
off_stack ks stack = count_if (λ k. not (elem k stack)) ks

off_stack-le : (ks stack : List String) (i : String) → off_stack ks (i ∷ stack) ≤ off_stack ks stack
unfolding count_if elem
off_stack-le [] stack i = omega arith
off_stack-le (k ∷ ks) stack i = ground (arith, off_stack-le ks stack i)

off_stack-lt :
    (ks stack : List String) (i : String)
    → elem i ks ≡ true
    → elem i stack ≡ false
    → off_stack ks (i ∷ stack) < off_stack ks stack
unfolding count_if elem
off_stack-lt [] stack i h out = absurd (cc)
off_stack-lt (k ∷ ks) stack i h out =
    ground (arith, eq_iff i k, eq_iff k i, off_stack-le ks stack i, off_stack-lt ks stack i)

visiting-add_edge :
    (i : String) (d : Option String) (st : State) → (add_edge i d st).visiting ≡ st.visiting
visiting-add_edge i none st = refl
visiting-add_edge i (some d) st = refl

module _ (cases : Dict CatalogueTestCase) (profile : String) (rs : List String) where
  -- the stack of names that depend on `i`, with `i` on it, depends on what `i` depends on
  chain_stack :
      (i j : String) (vs : List String)
      → elem j (deps_of (get cases i)) ≡ true
      → ((a : String) → elem a vs ≡ true → DependsOn cases a i)
      → (a : String) → elem a (i ∷ vs) ≡ true
      → DependsOn cases a j
  unfolding elem
  chain_stack i j vs dep stack a h = elim (Bool-cases (str_eq a i)) [
    | inl e ↦ rw ((eq_iff a i).0 e) (direct i j dep)
    | inr e ↦ chain a j (stack a (ground arith)) dep
  ]

  visit-Outcome :
      (fuel : ℕ) (i : String) (d : Option String) (st : State)
      → Inv cases profile rs st
      → IsNeeded cases profile rs i
      → ((a : String) → elem a st.visiting ≡ true → DependsOn cases a i)
      → off_stack (keys cases) st.visiting < fuel
      → Outcome cases profile rs i st (visit cases profile fuel i d st)
  unfolding visit visit_case
  visit-Outcome zero i d st v n stack room = absurd (omega arith)
  visit-Outcome (suc fuel) i d st v n stack room = elim (Option-cases (get cases i)) [
    | inl missing ↦ rw missing (n, missing)
    | inr (c, found) ↦
        let same : (add_edge i d st).visiting ≡ st.visiting = visiting-add_edge i d st in
        rw found (
          After-add_edge cases profile rs i d st _ (
            visit_found-Outcome cases profile rs
              (visit_each (λ j s. visit cases profile fuel j (some i) s)) i c n found
              (add_edge i d st) (add_edge-Inv cases profile rs i d st v)
              (λ h. stack i (rw (← same) h))
              λ w out.
                visit_each-Outcome cases profile rs (λ j s. visit cases profile fuel j (some i) s)
                  c.dependencies (enter i (add_edge i d st)) w
                  λ j s h inv q.
                    let dep : elem j (deps_of (get cases i)) ≡ true = rw found h in
                    let top : s.visiting ≡ i ∷ st.visiting = q ∙ ap (λ l. i ∷ l) same in
                    visit-Outcome fuel j (some i) s inv (needed j n dep)
                      (rw top (chain_stack i j st.visiting dep stack))
                      (rw top (
                        omega (
                          arith,
                          off_stack-lt (keys cases) st.visiting i (rw (elem-keys, found))
                              (rw (← same) out),
                        )))))
  ]

  start-Inv : Inv cases profile rs start
  unfolding elem
  start-Inv = record {
    same = λ i. refl;
    order = tt;
    apart = λ i h. absurd (cc);
    once = tt;
    all_needed = tt;
    all_suit = tt;
  }

off_stack-le-length : (cases : Dict CatalogueTestCase) → off_stack (keys cases) [] ≤ length cases
unfolding count_if keys elem
off_stack-le-length [] = omega arith
off_stack-le-length ((k, c) ∷ cases) = omega (arith, off_stack-le-length cases)

-- a compiled order of the cases
pub record IsCaseOrder (cases : Dict CatalogueTestCase) (profile : String)
    (direct_ids ordered : List String) : Type 0 where
  -- no case stands twice, and each stands after all that it depends on
  pub order : Extends cases [] ordered
  -- every case that was selected is there
  pub complete : All (λ i. elem i ordered ≡ true) (roots cases profile direct_ids)
  -- nothing else is there but what those depend on
  pub minimal : All (IsNeeded cases profile (roots cases profile direct_ids)) ordered
  pub suits : All (Suits cases profile (roots cases profile direct_ids)) ordered

abbrev pub IsCaseResult :
    Dict CatalogueTestCase
    → String
    → List String
    → Result CatalogueError (List String × Dict (List String))
    → Type 0
IsCaseResult cases profile direct_ids (ok (ordered, edges)) =
    IsCaseOrder cases profile direct_ids ordered
IsCaseResult cases profile direct_ids (err e) =
    IsFault cases profile (roots cases profile direct_ids) e

module _ (cases : Dict CatalogueTestCase) (profile : String) (direct_ids : List String) where
  visit-roots :
      OutcomeEach cases profile
        (roots cases profile direct_ids)
        (roots cases profile direct_ids)
        start
        (visit_each
          (λ i s. visit cases profile (suc (length cases)) i none s)
          (roots cases profile direct_ids)
          start)
  unfolding elem
  visit-roots =
      let rs = roots cases profile direct_ids in
      visit_each-Outcome cases profile rs (λ i s. visit cases profile (suc (length cases)) i none s)
        rs start (start-Inv cases profile rs)
        λ i s h inv q.
          visit-Outcome cases profile rs (suc (length cases)) i none s inv (root i h)
            (rw q (λ a e. absurd (cc))) (rw q (omega (arith, off_stack-le-length cases)))

  -- Of the selected cases and all that they depend on, `_ordered_case_ids` returns an order in which
  -- each case stands once, after all its dependencies, and nothing else stands; or it raises, and
  -- then a needed case is missing, depends on itself, or does not apply to the profile. Its
  -- recursion never goes deeper than the number of cases.
  pub ordered_case_ids_sound :
      IsCaseResult cases profile direct_ids (ordered_case_ids cases profile direct_ids)
  unfolding ordered_case_ids
  ordered_case_ids_sound =
      go
        (visit_each (λ i s. visit cases profile (suc (length cases)) i none s)
          (roots cases profile direct_ids) start)
        visit-roots
    where
      go :
          (r : Result CatalogueError State)
          → OutcomeEach cases profile
              (roots cases profile direct_ids)
              (roots cases profile direct_ids)
              start
              r
          → IsCaseResult cases profile direct_ids (r >>= λ st. ok (st.ordered, st.dependency_edges))
      go (err e) f = f
      go (ok st) a = record {
        order = a.inv.order;
        complete = a.done;
        minimal = a.inv.all_needed;
        suits = a.inv.all_suit;
      }
