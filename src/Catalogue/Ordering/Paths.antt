-- ===== src/Catalogue/Ordering/Paths.antt =====
-- Dependencies between catalogue cases, and orders that respect them.
use mathlib.Core.Path.{subst}
use mathlib.Core.List.{append_assoc, append-nil}
use conformance_suite_v.Base.{
  String, ◌≡◌, sym, true, false, Option, none, some, List, [], ◌∷◌, ◌++◌, elem, All,
}
use conformance_suite_v.Base.Dict.{Dict, get}
use conformance_suite_v.Catalogue.{CatalogueTestCase}

abbrev pub deps_of : Option CatalogueTestCase → List String
deps_of none = []
deps_of (some c) = c.dependencies

module _ (cases : Dict CatalogueTestCase) where
  -- a chain of one or more dependencies
  pub data DependsOn : String → String → Type 0 where
    direct : (a b : String) → elem b (deps_of (get cases a)) ≡ true → DependsOn a b
    chain :
        (a : String) {b : String} (c : String)
        → DependsOn a b
        → elem c (deps_of (get cases b)) ≡ true
        → DependsOn a c

  -- the identifiers of `xs` are new, and their dependencies stand before them
  abbrev pub Extends : List String → List String → Type 0
  Extends before [] = Unit
  Extends before (x ∷ xs) =
      (elem x before ≡ false)
      × All (λ d. elem d before ≡ true) (deps_of (get cases x))
      × Extends (before ++ x ∷ []) xs

  pub Extends-append :
      (before xs ys : List String)
      → Extends before xs
      → Extends (before ++ xs) ys
      → Extends before (xs ++ ys)
  Extends-append before [] ys h g = subst (λ b. Extends b ys) (append-nil before) g
  Extends-append before (x ∷ xs) ys (new, after, h) g = (
    new,
    after,
    Extends-append (before ++ x ∷ []) xs ys h
        (subst (λ b. Extends b ys) (sym (append_assoc before (x ∷ []) xs)) g),
  )
