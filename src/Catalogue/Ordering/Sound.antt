-- ===== src/Catalogue/Ordering/Sound.antt =====
-- What each outcome of `visit` says: an order that respects the dependencies, or a true fault of
-- the catalogue.
use mathlib.Core.Path.{subst}
use conformance_suite_v.Base.{
  String, ◌≡◌, refl, ap, ◌∙◌, ◌>>=◌, true, false, not, ◌||◌, inl, inr, Option, none, some, List, [],
  ◌∷◌, ◌++◌, Result, ok, err, arith, eq_iff, str_eq, elem, filter, All, All-append, Bool-cases,
}
use conformance_suite_v.Base.Dict.{Dict, get}
use conformance_suite_v.Base.Dict.Distinct.{Distinct, passes}
use conformance_suite_v.Catalogue.{
  CatalogueTestCase, CatalogueError, missing_dependency, dependency_cycle, inapplicable_dependency,
}
use conformance_suite_v.Catalogue.Ordering.{
  State, add_edge, enter, leave, visit_each, applies, visit_found,
}
use conformance_suite_v.Catalogue.Ordering.Paths.{deps_of, DependsOn, Extends, Extends-append}

module _ (cases : Dict CatalogueTestCase) (profile : String) (roots : List String) where
  -- a root, or what a root depends on
  pub data IsNeeded : String → Type 0 where
    root : (i : String) → elem i roots ≡ true → IsNeeded i
    needed :
        (i : String) {j : String} → IsNeeded j → elem i (deps_of (get cases j)) ≡ true → IsNeeded i

  abbrev pub Suits : String → Type 0
  Suits i = passes (applies cases profile) (get cases i) ≡ true

  -- what is wrong with the catalogue when `visit` raises
  abbrev pub IsFault : CatalogueError → Type 0
  IsFault (missing_dependency i) = IsNeeded i × (get cases i ≡ none)
  IsFault (dependency_cycle i) = IsNeeded i × DependsOn cases i i
  IsFault (inapplicable_dependency i) =
      IsNeeded i × (passes (applies cases profile) (get cases i) ≡ false)
  IsFault _ = ⊥

  -- what holds of the variables between two calls of `visit`
  pub record Inv (st : State) : Type 0 where
    pub same : (i : String) → elem i st.visited ≡ elem i st.ordered
    pub order : Extends cases [] st.ordered
    pub apart : (i : String) → elem i st.visiting ≡ true → elem i st.ordered ≡ false
    pub once : Distinct st.visiting
    pub all_needed : All IsNeeded st.ordered
    pub all_suit : All Suits st.ordered

  -- what `visit i` gives
  pub record After (i : String) (st st' : State) : Type 0 where
    pub inv : Inv st'
    pub stack : st'.visiting ≡ st.visiting
    pub keeps : (j : String) → elem j st.ordered ≡ true → elem j st'.ordered ≡ true
    pub done : elem i st'.ordered ≡ true

  abbrev pub Outcome : String → State → Result CatalogueError State → Type 0
  Outcome i st (ok st') = After i st st'
  Outcome i st (err e) = IsFault e

  -- what the loop over the dependencies gives
  pub record AfterEach (is : List String) (st st' : State) : Type 0 where
    pub inv : Inv st'
    pub stack : st'.visiting ≡ st.visiting
    pub keeps : (j : String) → elem j st.ordered ≡ true → elem j st'.ordered ≡ true
    pub done : All (λ i. elem i st'.ordered ≡ true) is

  abbrev pub OutcomeEach : List String → State → Result CatalogueError State → Type 0
  OutcomeEach is st (ok st') = AfterEach is st st'
  OutcomeEach is st (err e) = IsFault e

  pub OutcomeEach-nil : (st : State) → Inv st → OutcomeEach [] st (ok st)
  OutcomeEach-nil st v = record { inv = v; stack = refl; keeps = λ j h. h; done = tt }

  -- one more dependency, and the rest
  AfterEach-cons :
      (i : String) (is : List String) (st : State) (st' st'' : State)
      → After i st st'
      → AfterEach is st' st''
      → AfterEach (i ∷ is) st st''
  AfterEach-cons i is st st' st'' a b = record {
    inv = b.inv;
    stack = b.stack ∙ a.stack;
    keeps = λ j h. b.keeps j (a.keeps j h);
    done = (b.keeps i a.done, b.done);
  }

  OutcomeEach-cons :
      (i : String) (is : List String) (st st' : State) (r : Result CatalogueError State)
      → After i st st'
      → OutcomeEach is st' r
      → OutcomeEach (i ∷ is) st r
  OutcomeEach-cons i is st st' (ok st'') a b = AfterEach-cons i is st st' st'' a b
  OutcomeEach-cons i is st st' (err e) a f = f

  OutcomeEach-bind :
      (i : String) (is : List String) (st : State) (f : State → Result CatalogueError State)
      (r : Result CatalogueError State)
      → Outcome i st r
      → ((st' : State) → After i st st' → OutcomeEach is st' (f st'))
      → OutcomeEach (i ∷ is) st (r >>= f)
  OutcomeEach-bind i is st f (err e) fault k = fault
  OutcomeEach-bind i is st f (ok st') a k = OutcomeEach-cons i is st st' (f st') a (k st' a)

  pub visit_each-Outcome :
      (visit_one : String → State → Result CatalogueError State) (is : List String) (st : State)
      → Inv st
      → ((i : String) (s : State)
          → elem i is ≡ true
          → Inv s
          → s.visiting ≡ st.visiting
          → Outcome i s (visit_one i s))
      → OutcomeEach is st (visit_each visit_one is st)
  unfolding visit_each elem
  visit_each-Outcome visit_one [] st v h = OutcomeEach-nil st v
  visit_each-Outcome visit_one (i ∷ is) st v h =
      OutcomeEach-bind i is st (visit_each visit_one is) (visit_one i st)
        (h i st (ground (arith, eq_iff i i)) v refl)
        λ st' a.
          visit_each-Outcome visit_one is st' a.inv
            λ j s m w q. h j s (ground arith) w (q ∙ a.stack)

  pub add_edge-Inv : (i : String) (d : Option String) (st : State) → Inv st → Inv (add_edge i d st)
  add_edge-Inv i none st v = v
  add_edge-Inv i (some d) st v = record {
    same = v.same;
    order = v.order;
    apart = v.apart;
    once = v.once;
    all_needed = v.all_needed;
    all_suit = v.all_suit;
  }

  enter-Inv :
      (i : String) (st : State)
      → Inv st
      → elem i st.ordered ≡ false
      → elem i st.visiting ≡ false
      → Inv (enter i st)
  unfolding elem
  enter-Inv i st v fresh out = record {
    same = v.same;
    order = v.order;
    apart = λ j h. ground (arith, eq_iff j i, v.apart j);
    once = (out, v.once);
    all_needed = v.all_needed;
    all_suit = v.all_suit;
  }

  elem-concat :
      (j : String) (xs : List String) (i : String)
      → elem j (xs ++ i ∷ []) ≡ (elem j xs || str_eq j i)
  unfolding elem
  elem-concat j [] i = ground arith
  elem-concat j (x ∷ xs) i = ground (arith, elem-concat j xs i)

  -- removing what was put in last
  remove-absent :
      (i : String) (xs : List String) → elem i xs ≡ false → filter (λ j. not (str_eq j i)) xs ≡ xs
  unfolding elem filter
  remove-absent i [] h = refl
  remove-absent i (x ∷ xs) h = ground (arith, eq_iff x i, eq_iff i x, remove-absent i xs)

  remove-entered :
      (i : String) (xs : List String)
      → elem i xs ≡ false
      → filter (λ j. not (str_eq j i)) (i ∷ xs) ≡ xs
  unfolding filter
  remove-entered i xs h = ground (arith, eq_iff i i, remove-absent i xs h)

  -- the case itself is done after its dependencies
  leave-After :
      (i : String) (c : CatalogueTestCase) (st st' : State)
      → IsNeeded i
      → get cases i ≡ some c
      → applies cases profile c ≡ true
      → elem i st.visiting ≡ false
      → AfterEach c.dependencies (enter i st) st'
      → After i st (leave i st')
  unfolding elem
  leave-After i c st st' n found suits out a =
      let stack = ap (filter (λ j. not (str_eq j i))) a.stack ∙ remove-entered i st.visiting out in
      let fresh : elem i st'.ordered ≡ false =
        a.inv.apart i (rw a.stack (ground (arith, eq_iff i i))) in
      record {
        inv = record {
          same = λ j. ground (arith, a.inv.same j, elem-concat j st'.ordered i);
          order =
              Extends-append cases [] st'.ordered (i ∷ []) a.inv.order (fresh, rw found a.done, tt);
          apart = λ j. rw stack λ h. ground (
            arith,
            elem-concat j st'.ordered i,
            eq_iff j i,
            a.inv.apart j (rw a.stack (ground arith)),
          );
          once = rw stack (subst Distinct a.stack a.inv.once).1;
          all_needed = All-append IsNeeded st'.ordered (i ∷ []) a.inv.all_needed (n, tt);
          all_suit = All-append Suits st'.ordered (i ∷ []) a.inv.all_suit (rw found suits, tt);
        };
        stack = stack;
        keeps = λ j h. ground (arith, elem-concat j st'.ordered i, a.keeps j h);
        done = ground (arith, eq_iff i i, elem-concat i st'.ordered i);
      }

  pub After-add_edge :
      (i : String) (d : Option String) (st : State) (r : Result CatalogueError State)
      → Outcome i (add_edge i d st) r
      → Outcome i st r
  After-add_edge i d st (err e) f = f
  After-add_edge i none st (ok st') a = a
  After-add_edge i (some d) st (ok st') a = record {
    inv = a.inv;
    stack = a.stack;
    keeps = a.keeps;
    done = a.done;
  }

  -- the steps of `visit` after the lookup
  module _ (visit_deps : List String → State → Result CatalogueError State) (i : String)
      (c : CatalogueTestCase) (n : IsNeeded i) (found : get cases i ≡ some c) where
    leave-Outcome :
        (st : State) (r : Result CatalogueError State)
        → applies cases profile c ≡ true
        → elem i st.visiting ≡ false
        → OutcomeEach c.dependencies (enter i st) r
        → Outcome i st (r >>= λ st'. ok (leave i st'))
    leave-Outcome st (err e) suits out f = f
    leave-Outcome st (ok st') suits out a = leave-After i c st st' n found suits out a

    pub visit_found-Outcome :
        (st : State)
        → Inv st
        → (elem i st.visiting ≡ true → DependsOn cases i i)
        → (Inv (enter i st)
            → elem i st.visiting ≡ false
            → OutcomeEach c.dependencies (enter i st) (visit_deps c.dependencies (enter i st)))
        → Outcome i st (visit_found cases profile visit_deps i c st)
    unfolding visit_found
    visit_found-Outcome st v cycle deps = elim (Bool-cases (elem i st.visited)) [
      | inl done ↦
          rw done
            (record { inv = v; stack = refl; keeps = λ j k. k; done = ground (arith, v.same i) })
      | inr fresh ↦ rw fresh (elim (Bool-cases (elem i st.visiting)) [
        | inl on ↦ rw on (n, cycle on)
        | inr out ↦ rw out (elim (Bool-cases (applies cases profile c)) [
          | inl suits ↦ rw suits (
              leave-Outcome st (visit_deps c.dependencies (enter i st)) suits out
                (deps (enter-Inv i st v (ground (arith, v.same i)) out) out))
          | inr not_suits ↦ rw not_suits (n, rw found not_suits)
        ])
      ])
    ]
