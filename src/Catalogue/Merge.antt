-- ===== src/Catalogue/Merge.antt =====
-- The merge of the plans that the catalogue areas of a version 2 document are compiled to, in
-- conformance/catalogue.py. Provenance, which is carried along, is left out.
pub mod Cases
pub mod Joined
pub mod Hidden
use Prim.Native.Nat.{◌*◌}
use Prim.Native.String
use conformance_suite_v.Base.{
  ℕ, suc, String, ◌+◌, Bool, true, false, not, ◌&&◌, ◌||◌, Option, none, some, List, [], ◌∷◌, ◌++◌,
  map, Result, ok, err, ◌>>=◌, str_eq, ◌==◌, if◌then◌else◌, elem, all, length,
}
use conformance_suite_v.Base.Json.{
  Number, integer, ratio, infinity, nan, Json, null, bool, num, str, arr, obj, Items, nil, cons,
  Fields, end, field, field_of,
}
use conformance_suite_v.Base.Split.{get_elem?}
use conformance_suite_v.Base.Dict.{Dict, get, put}
use conformance_suite_v.Catalogue.{
  CatalogueTestCase, CatalogueError, duplicated_across_catalogues, conflicting_trace_types,
  conflicting_trace_values, no_such_position,
}
use conformance_suite_v.Catalogue.Requirements.{set}
use conformance_suite_v.Catalogue.RuntimeInputs.{RuntimeInputTrace}
use conformance_suite_v.Catalogue.Capabilities.{ImplementedEndpoint}
use conformance_suite_v.Catalogue.Compiler.{CatalogueKey, CompiledTestPlan}

-- the cases of all plans, each identifier once: `seen` are those before
unfoldable pub merge_cases_of :
    List CatalogueTestCase
    → List String
    → Result CatalogueError (List String × List CatalogueTestCase)
merge_cases_of [] seen = ok (seen, [])
merge_cases_of (c ∷ cs) seen =
    let rest =
      merge_cases_of cs (c.test_case_id ∷ seen) >>= λ merged. ok (merged.0, c ∷ merged.1) in
    if elem c.test_case_id seen then err (duplicated_across_catalogues c.test_case_id) else rest

unfoldable pub merge_plans_cases :
    List CompiledTestPlan → List String → Result CatalogueError (List CatalogueTestCase)
merge_plans_cases [] seen = ok []
merge_plans_cases (p ∷ plans) seen = do
  (later, cases) ← merge_cases_of p.test_cases seen
  others ← merge_plans_cases plans later
  ok (cases ++ others)

-- `_merge_compiled_test_cases`
unfoldable pub merge_compiled_test_cases :
    List CompiledTestPlan → Result CatalogueError (List CatalogueTestCase)
unfolding merge_plans_cases
merge_compiled_test_cases plans = merge_plans_cases plans []

-- a magnitude and a denominator, with the sign: `true` and `false` are 1 and 0
abbrev same_ratio : Bool → ℕ → ℕ → Bool → ℕ → ℕ → Bool
same_ratio s a b t c d = a * d == c * b && (a == 0 || (s && t) || (not s && not t))

-- `a == b` between numbers. Two values that are compared here are copies of one value of the document,
-- so that a NaN within them is one object, which Python takes for equal inside a list or a dictionary.
abbrev same_number : Bool → Number → Number → Bool
same_number inside (integer s a) (integer t c) = same_ratio s a 1 t c 1
same_number inside (integer s a) (ratio t c d) = same_ratio s a 1 t c d
same_number inside (ratio s a b) (integer t c) = same_ratio s a b t c 1
same_number inside (ratio s a b) (ratio t c d) = same_ratio s a b t c d
same_number inside (infinity s) (infinity t) = (s && t) || (not s && not t)
same_number inside nan nan = inside
same_number inside _ _ = false

abbrev truth : Bool → Number
truth true = integer false 1
truth false = integer false 0

-- `len(d)`
unfoldable pub size_of : Fields → ℕ
size_of end = 0
size_of (field k v rest) = suc (size_of rest)

-- `a == b` between JSON values
unfoldable mutual
  pub same_value : Bool → Json → Json → Bool
  same_value inside null null = true
  same_value inside (bool a) (bool b) = (a && b) || (not a && not b)
  same_value inside (bool a) (num n) = same_number inside (truth a) n
  same_value inside (num m) (bool b) = same_number inside m (truth b)
  same_value inside (num m) (num n) = same_number inside m n
  same_value inside (str a) (str b) = str_eq a b
  same_value inside (arr a) (arr b) = same_items a b
  same_value inside (obj a) (obj b) = size_of a == size_of b && same_fields a b
  same_value inside _ _ = false

  pub same_items : Items → Items → Bool
  same_items nil nil = true
  same_items (cons v a) (cons w b) = same_value true v w && same_items a b
  same_items _ _ = false

  pub same_fields : Fields → Fields → Bool
  same_fields end b = true
  same_fields (field k v rest) b =
      elim (field_of b k) [ none ↦ false | some w ↦ same_value true v w ] && same_fields rest b

-- the value of two traces, where neither says that it is sensitive
abbrev pub open_value : String → Option Json → Option Json → Result CatalogueError (Option Json)
open_value i none incoming = ok incoming
open_value i (some v) none = ok (some v)
open_value i (some v) (some w) =
    if same_value false v w then ok (some v) else err (conflicting_trace_values i)

-- `_merged_runtime_input_trace_value`
abbrev pub trace_value :
    RuntimeInputTrace → RuntimeInputTrace → Bool → Result CatalogueError (Option Json)
trace_value existing incoming true = ok none
trace_value existing incoming false = open_value existing.input_id existing.value incoming.value

-- `_merge_runtime_input_trace`
unfoldable pub merge_runtime_input_trace :
    RuntimeInputTrace → RuntimeInputTrace → Result CatalogueError RuntimeInputTrace
merge_runtime_input_trace existing incoming =
    if not (str_eq existing.input_type incoming.input_type)
    then err (conflicting_trace_types existing.input_id)
    else do
      value ← trace_value existing incoming (existing.sensitive || incoming.sensitive)
      ok (record {
        input_id = existing.input_id;
        input_type = existing.input_type;
        required = existing.required || incoming.required;
        sensitive = existing.sensitive || incoming.sensitive;
        provided = existing.provided || incoming.provided;
        value = value;
      })

-- the variables of `_merge_runtime_input_snapshots`
pub record Traces : Type 0 where
  pub traces : List RuntimeInputTrace
  pub positions : Dict ℕ

-- `traces[position] = _merge_runtime_input_trace(traces[position], trace)`
abbrev pub merge_over :
    Traces → ℕ → RuntimeInputTrace → Option RuntimeInputTrace → Result CatalogueError Traces
merge_over s position t none = err no_such_position
merge_over s position t (some existing) = do
  merged ← merge_runtime_input_trace existing t
  ok (record s { traces = set s.traces position merged })

abbrev pub merge_at : Traces → RuntimeInputTrace → Option ℕ → Result CatalogueError Traces
merge_at s t none = ok (record {
  traces = s.traces ++ t ∷ [];
  positions = put s.positions t.input_id (length s.traces);
})
merge_at s t (some position) = merge_over s position t (get_elem? s.traces position)

unfoldable pub merge_traces : Traces → List RuntimeInputTrace → Result CatalogueError Traces
merge_traces s [] = ok s
merge_traces s (t ∷ ts) = do next ← merge_at s t (get s.positions t.input_id); merge_traces next ts

unfoldable pub merge_snapshots : Traces → List CompiledTestPlan → Result CatalogueError Traces
merge_snapshots s [] = ok s
merge_snapshots s (p ∷ plans) = do
  next ← merge_traces s p.traceability.runtime_input_snapshot
  merge_snapshots next plans

unfoldable pub merge_runtime_input_snapshots :
    List CompiledTestPlan → Result CatalogueError (List RuntimeInputTrace)
unfolding merge_snapshots
merge_runtime_input_snapshots plans = do
  s ← merge_snapshots (record { traces = []; positions = [] }) plans
  ok s.traces

-- What `_merge_compiled_plan_documents_v2` reads of a `PlanDocumentV2`.
pub record PlanDocument : Type 0 where
  pub scheme : String
  pub specification : String
  pub version : String
  pub security_profile : String

-- the list of a field of all plans
unfoldable pub concat_of {ℓ} :
    {A : Type ℓ} → (CompiledTestPlan → List A) → List CompiledTestPlan → List A
concat_of of [] = []
concat_of of (p ∷ plans) = of p ++ concat_of of plans

-- one entry of `_aggregate_catalogue_version`: `api:version`
abbrev pub version_entry : CompiledTestPlan → String
version_entry p = String.◌++◌ p.traceability.catalogue_key.api (String.◌++◌ ":" p.catalogue_version)

-- `"; ".join(…)`
unfoldable pub aggregate_catalogue_version : List CompiledTestPlan → String
aggregate_catalogue_version [] = ""
aggregate_catalogue_version (p ∷ []) = version_entry p
aggregate_catalogue_version (p ∷ q ∷ plans) =
    String.◌++◌ (version_entry p) (String.◌++◌ "; " (aggregate_catalogue_version (q ∷ plans)))

abbrev pub aggregate_key : PlanDocument → CatalogueKey
aggregate_key d = record { standard = d.scheme; version = d.version; api = d.specification }

-- `_merge_compiled_plan_documents_v2`
unfoldable pub merge_compiled_plan_documents :
    PlanDocument
    → List CompiledTestPlan
    → List ImplementedEndpoint
    → Result CatalogueError CompiledTestPlan
unfolding merge_compiled_test_cases merge_runtime_input_snapshots concat_of
merge_compiled_plan_documents d plans endpoints = do
  cases ← merge_compiled_test_cases plans
  snapshot ← merge_runtime_input_snapshots plans
  ok (record {
    catalogue_key = aggregate_key d;
    catalogue_version = aggregate_catalogue_version plans;
    security_profile = d.security_profile;
    test_cases = cases;
    traceability = record {
      catalogue_key = aggregate_key d;
      catalogue_version = aggregate_catalogue_version plans;
      security_profile = d.security_profile;
      selected_endpoints = endpoints;
      selected_capabilities = concat_of (λ p. p.traceability.selected_capabilities) plans;
      applicability_decisions = concat_of (λ p. p.traceability.applicability_decisions) plans;
      generated_test_case_ids = map (λ (c : CatalogueTestCase). c.test_case_id) cases;
      runtime_input_snapshot = snapshot;
      non_certifying_reasons = concat_of (λ p. p.traceability.non_certifying_reasons) plans;
    };
    certifying = all (λ (p : CompiledTestPlan). p.certifying) plans;
    skipped_test_cases = concat_of (λ p. p.skipped_test_cases) plans;
  })
