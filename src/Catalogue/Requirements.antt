-- ===== src/Catalogue/Requirements.antt =====
-- The runtime inputs that the cases of a compiled plan require, combined by input, in
-- conformance/catalogue.py.
pub mod Combined
pub mod Covered
use Prim.Native.String
use conformance_suite_v.Base.{
  ℕ, zero, suc, String, not, ◌||◌, Option, none, some, List, [], ◌∷◌, ◌++◌, Result, ok, err, ◌>>=◌,
  str_eq, if◌then◌else◌, elem, length,
}
use conformance_suite_v.Base.Dict.{Dict, get, put}
use conformance_suite_v.Catalogue.{
  RuntimeInputRequirement, CatalogueTestCase, CatalogueError, unsupported_input_type,
  conflicting_input_types, conflicting_input_sources, no_such_case,
}

abbrev pub supported_input_types : List String
supported_input_types = "string" ∷ "number" ∷ "boolean" ∷ "json" ∷ "url" ∷ "file_reference" ∷ []

-- The variables of `_combined_runtime_requirements`.
pub record Requirements : Type 0 where
  pub by_id : Dict RuntimeInputRequirement
  pub positions : Dict ℕ
  pub ordered : List RuntimeInputRequirement

-- `items[index] = value`; the code assigns within the list only
unfoldable pub set {ℓ} : {A : Type ℓ} → List A → ℕ → A → List A
set [] i v = []
set (x ∷ xs) zero v = v ∷ xs
set (x ∷ xs) (suc i) v = x ∷ set xs i v

-- `first or second`, of two descriptions that may be missing
abbrev pub either_text : Option String → Option String → Option String
either_text none second = second
either_text (some String.[]) second = second
either_text (some (String.◌∷◌ c s)) second = some (String.◌∷◌ c s)

-- `merged_requirement`
abbrev pub merged : RuntimeInputRequirement → RuntimeInputRequirement → RuntimeInputRequirement
merged existing r = record {
  input_id = existing.input_id;
  input_type = existing.input_type;
  label = existing.label;
  required = existing.required || r.required;
  sensitive = existing.sensitive || r.sensitive;
  description = either_text existing.description r.description;
  source = existing.source;
}

-- `ordered_requirements[requirement_positions[input_id]] = merged_requirement`
unfoldable pub set_at :
    List RuntimeInputRequirement → Option ℕ → RuntimeInputRequirement → List RuntimeInputRequirement
set_at ordered none r = ordered
set_at ordered (some i) r = set ordered i r

unfoldable pub join_requirement :
    Requirements
    → RuntimeInputRequirement
    → Option RuntimeInputRequirement
    → Result CatalogueError Requirements
join_requirement s r none = ok (record {
  by_id = put s.by_id r.input_id r;
  positions = put s.positions r.input_id (length s.ordered);
  ordered = s.ordered ++ r ∷ [];
})
join_requirement s r (some existing) =
    if not (str_eq existing.input_type r.input_type)
    then err (conflicting_input_types r.input_id)
    else if not (str_eq existing.source r.source)
    then err (conflicting_input_sources r.input_id)
    else ok (record {
      by_id = put s.by_id r.input_id (merged existing r);
      positions = s.positions;
      ordered = set_at s.ordered (get s.positions r.input_id) (merged existing r);
    })

-- the body of the inner loop of `_combined_runtime_requirements`
unfoldable pub combine_requirement :
    Requirements → RuntimeInputRequirement → Result CatalogueError Requirements
unfolding join_requirement set_at
combine_requirement s r =
    if not (elem r.input_type supported_input_types)
    then err (unsupported_input_type r.input_id r.input_type)
    else join_requirement s r (get s.by_id r.input_id)

unfoldable pub combine_requirements :
    Requirements → List RuntimeInputRequirement → Result CatalogueError Requirements
combine_requirements s [] = ok s
combine_requirements s (r ∷ rs) = do next ← combine_requirement s r; combine_requirements next rs

-- `cases_by_id[case_id].runtime_input_requirements`
abbrev pub requirements_of :
    String → Option CatalogueTestCase → Result CatalogueError (List RuntimeInputRequirement)
requirements_of i none = err (no_such_case i)
requirements_of i (some c) = ok c.runtime_input_requirements

unfoldable pub combine_cases :
    Dict CatalogueTestCase → Requirements → List String → Result CatalogueError Requirements
combine_cases cases s [] = ok s
combine_cases cases s (i ∷ ids) = do
  rs ← requirements_of i (get cases i)
  next ← combine_requirements s rs
  combine_cases cases next ids

abbrev pub no_requirements : Requirements
no_requirements = record { by_id = []; positions = []; ordered = [] }

unfoldable pub combined_runtime_requirements :
    Dict CatalogueTestCase → List String → Result CatalogueError (List RuntimeInputRequirement)
unfolding combine_cases
combined_runtime_requirements cases ids = do
  s ← combine_cases cases no_requirements ids
  ok s.ordered
