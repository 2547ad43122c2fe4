-- ===== src/Catalogue/Ordering.antt =====
-- `_ordered_case_ids` of conformance/catalogue.py: the selected cases and all that they depend on,
-- each after its dependencies. The source recurs without a bound; here `fuel` bounds the depth.
pub mod Paths
pub mod Sound
pub mod Total
pub mod Complete
use conformance_suite_v.Base.{
  ℕ, zero, suc, String, Bool, true, false, not, Option, none, some, List, [], ◌∷◌, ◌++◌, Result, ok,
  err, ◌>>=◌, str_eq, if◌then◌else◌, elem, filter, length,
}
use conformance_suite_v.Base.Dict.{Dict, get, put, keys}
use conformance_suite_v.Catalogue.{
  CatalogueTestCase, CatalogueError, missing_dependency, dependency_cycle, inapplicable_dependency,
  recursion_limit, applies_to,
}

-- the variables that `visit` shares with the function around it; a set is a list
pub record State : Type 0 where
  pub ordered : List String
  pub dependency_edges : Dict (List String)
  pub visiting : List String
  pub visited : List String

abbrev pub start : State
start = record { ordered = []; dependency_edges = []; visiting = []; visited = [] }

abbrev pub add_to_set : Option (List String) → String → List String
add_to_set none i = i ∷ []
add_to_set (some l) i = if elem i l then l else i ∷ l

-- `dependency_edges.setdefault(case_id, set()).add(dependent_id)`
abbrev pub add_edge : String → Option String → State → State
add_edge case_id none st = st
add_edge case_id (some dependent) st = record st {
  dependency_edges =
      put st.dependency_edges case_id (add_to_set (get st.dependency_edges case_id) dependent);
}

abbrev pub enter : String → State → State
enter case_id st = record st { visiting = case_id ∷ st.visiting }

-- `visiting.remove`, `visited.add`, `ordered.append`
abbrev pub leave : String → State → State
leave case_id st = record st {
  visiting = filter (λ i. not (str_eq i case_id)) st.visiting;
  visited = case_id ∷ st.visited;
  ordered = st.ordered ++ case_id ∷ [];
}

-- a loop that visits each of a list of cases
unfoldable pub visit_each :
    (String → State → Result CatalogueError State)
    → List String
    → State
    → Result CatalogueError State
visit_each visit_one [] st = ok st
visit_each visit_one (i ∷ more) st = do st' ← visit_one i st; visit_each visit_one more st'

module _ (cases_by_id : Dict CatalogueTestCase) (profile : String) where
  abbrev pub applies : CatalogueTestCase → Bool
  applies c = applies_to c.applicability.security_profiles profile

  -- the checks of `visit` on a case that exists, with the loop over its dependencies as an argument
  pub visit_found :
      (List String → State → Result CatalogueError State)
      → String
      → CatalogueTestCase
      → State
      → Result CatalogueError State
  visit_found visit_deps case_id c st =
      if elem case_id st.visited
      then ok st
      else if elem case_id st.visiting
      then err (dependency_cycle case_id)
      else if not (applies c)
      then err (inapplicable_dependency case_id)
      else do st' ← visit_deps c.dependencies (enter case_id st); ok (leave case_id st')

  visit_case :
      (List String → State → Result CatalogueError State)
      → String
      → Option String
      → Option CatalogueTestCase
      → State
      → Result CatalogueError State
  unfolding visit_found
  visit_case visit_deps case_id dependent none st = err (missing_dependency case_id)
  visit_case visit_deps case_id dependent (some c) st =
      visit_found visit_deps case_id c (add_edge case_id dependent st)

  unfoldable pub visit : ℕ → String → Option String → State → Result CatalogueError State
  unfolding visit_case visit_each
  visit zero case_id dependent st = err recursion_limit
  visit (suc fuel) case_id dependent st =
      visit_case (visit_each (λ d s. visit fuel d (some case_id) s)) case_id dependent
        (get cases_by_id case_id) st

  -- the roots, in catalogue order
  abbrev pub roots : List String → List String
  roots direct_ids = filter (λ i. elem i direct_ids) (keys cases_by_id)

  unfoldable pub ordered_case_ids :
      List String → Result CatalogueError (List String × Dict (List String))
  unfolding visit visit_each
  ordered_case_ids direct_ids = do
    st ← visit_each (λ i s. visit (suc (length cases_by_id)) i none s) (roots direct_ids) start
    ok (st.ordered, st.dependency_edges)
