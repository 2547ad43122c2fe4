-- ===== src/Catalogue/Ordering/Complete.antt =====
-- A catalogue without cycles and dangling dependencies is always put into order.
use conformance_suite_v.Base.{
  ℕ, ◌<◌, String, ◌≡◌, refl, Bool, true, some, List, [], ◌∷◌, Result, ok, err, is_ok, arith, elem,
  filter, Option-cases, inl, inr,
}
use conformance_suite_v.Base.Dict.{Dict, get, keys, has}
use conformance_suite_v.Base.Dict.Distinct.{elem-keys}
use conformance_suite_v.Catalogue.{
  CatalogueTestCase, CatalogueError, missing_dependency, dependency_cycle, inapplicable_dependency,
}
use conformance_suite_v.Catalogue.Ordering.{applies, roots, ordered_case_ids}
use conformance_suite_v.Catalogue.Ordering.Paths.{deps_of, DependsOn, direct, chain}
use conformance_suite_v.Catalogue.Ordering.Sound.{IsNeeded, root, needed, IsFault}
use conformance_suite_v.Catalogue.Ordering.Total.{IsCaseResult, ordered_case_ids_sound}

-- Every case applies to the profile, and depends on cases that are there and have a lower rank.
pub record IsGraded (cases : Dict CatalogueTestCase) (profile : String) (rank : String → ℕ)
    : Type 0 where
  pub applies_all :
      (i : String) (c : CatalogueTestCase) → get cases i ≡ some c → applies cases profile c ≡ true
  pub present :
      (i : String) (d : String) → elem d (deps_of (get cases i)) ≡ true → has cases d ≡ true
  pub descends : (i : String) (d : String) → elem d (deps_of (get cases i)) ≡ true → rank d < rank i

elem-filter :
    (p : String → Bool) (xs : List String) (i : String)
    → elem i (filter p xs) ≡ true
    → elem i xs ≡ true
unfolding elem filter
elem-filter p [] i h = h
elem-filter p (x ∷ xs) i h = ground (arith, elem-filter p xs i)

module _ (cases : Dict CatalogueTestCase) (profile : String) (direct_ids : List String)
    (rank : String → ℕ) (g : IsGraded cases profile rank) where
  needed-has :
      {i : String} → IsNeeded cases profile (roots cases profile direct_ids) i → has cases i ≡ true
  needed-has (root i h) =
      ground (arith, elem-keys cases i, elem-filter (λ k. elem k direct_ids) (keys cases) i h)
  needed-has (needed i {j = j} n h) = g.present j i h

  depends-lt : {a b : String} → DependsOn cases a b → rank b < rank a
  depends-lt (direct a b h) = g.descends a b h
  depends-lt (chain a {b = b} c p h) = omega (arith, depends-lt p, g.descends b c h)

  no_fault : (e : CatalogueError) → IsFault cases profile (roots cases profile direct_ids) e → ⊥
  no_fault (missing_dependency i) (n, h) = cc (needed-has n, h)
  no_fault (dependency_cycle i) (n, h) = absurd (omega (arith, depends-lt h))
  no_fault (inapplicable_dependency i) (n, h) = elim (Option-cases (get cases i)) [
    | inl e ↦ cc (needed-has n, e)
    | inr (c, e) ↦ cc (g.applies_all i c e, h, e)
  ]
  no_fault _ f = f

  -- When every case applies to the profile, and depends only on cases that are there and that a
  -- rank puts below it, `_ordered_case_ids` raises nothing.
  pub ordered_case_ids_complete : is_ok (ordered_case_ids cases profile direct_ids) ≡ true
  ordered_case_ids_complete =
      go (ordered_case_ids cases profile direct_ids)
        (ordered_case_ids_sound cases profile direct_ids)
    where
      go :
          (r : Result CatalogueError (List String × Dict (List String)))
          → IsCaseResult cases profile direct_ids r
          → is_ok r ≡ true
      go (ok x) h = refl
      go (err e) h = absurd (no_fault e h)
