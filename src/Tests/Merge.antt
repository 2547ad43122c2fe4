-- ===== src/Tests/Merge.antt =====
-- The merge of two compiled plans (conformance/catalogue.py).
use conformance_suite_v.Base.{
  String, ◌≡◌, ◌↔◌, refl, true, false, none, some, List, [], ◌∷◌, ok, err, elem,
}
use conformance_suite_v.Base.Json.{
  null, bool, num, str, arr, obj, nil, cons, end, field, ratio, nan, field_of,
}
use conformance_suite_v.Base.Dict.{get, put}
use conformance_suite_v.Catalogue.{
  CatalogueTestCase, duplicated_across_catalogues, conflicting_trace_values,
}
use conformance_suite_v.Catalogue.Requirements.{set}
use conformance_suite_v.Catalogue.RuntimeInputs.{RuntimeInputTrace}
use conformance_suite_v.Catalogue.Compiler.{CompiledTestPlan}
use conformance_suite_v.Catalogue.Merge.{
  merge_cases_of, merge_compiled_test_cases, same_value, size_of, merge_runtime_input_trace,
  merge_traces, merge_runtime_input_snapshots, concat_of, aggregate_catalogue_version,
}
use conformance_suite_v.Catalogue.Merge.Cases.{Fresh, cases_of, merge_compiled_test_cases_iff}
use conformance_suite_v.Catalogue.Merge.Hidden.{merge_runtime_input_snapshots_hides}
use conformance_suite_v.Tests.Compiler.{plan, secret_trace, listing, reading}

abbrev open_trace : String → RuntimeInputTrace
open_trace value = record {
  input_id = "psu";
  input_type = "string";
  required = false;
  sensitive = false;
  provided = true;
  value = some (str value);
}

abbrev plan_with : List CatalogueTestCase → RuntimeInputTrace → CompiledTestPlan
plan_with cases t = record plan {
  test_cases = cases;
  traceability = record (plan.traceability) { runtime_input_snapshot = t ∷ [] };
}

abbrev plans : List CompiledTestPlan
plans = plan_with (reading ∷ []) (open_trace "12345") ∷ plan ∷ []

cases_merged : merge_compiled_test_cases plans ≡ ok (reading ∷ listing ∷ [])
unfolding merge_compiled_test_cases merge_cases_of elem
cases_merged = refl

cases_twice :
    merge_compiled_test_cases (plan ∷ plan ∷ []) ≡ err (duplicated_across_catalogues "list")
unfolding merge_compiled_test_cases merge_cases_of elem
cases_twice = refl

traces_merged : merge_runtime_input_snapshots plans ≡ ok (secret_trace ∷ [])
unfolding merge_runtime_input_snapshots merge_traces merge_runtime_input_trace get put set
traces_merged = refl

traces_conflict :
    merge_runtime_input_snapshots
      (plan_with [] (open_trace "1") ∷ plan_with [] (open_trace "2") ∷ [])
    ≡ err (conflicting_trace_values "psu")
unfolding merge_runtime_input_snapshots merge_traces merge_runtime_input_trace get put set
    same_value
traces_conflict = refl

version_text : aggregate_catalogue_version plans ≡ "ais:1; ais:1"
unfolding aggregate_catalogue_version
version_text = refl

-- `True == 1.0`, the order of fields does not count, and a NaN differs from itself unless it is inside
values_same :
    same_value false
      (obj (field "a" (bool true) (field "b" null end)))
      (obj (field "b" null (field "a" (num (ratio false 2 2)) end)))
    ≡ true
unfolding same_value size_of field_of
values_same = refl

values_differ : same_value false (num nan) (num nan) ≡ false
unfolding same_value
values_differ = refl

values_inside : same_value false (arr (cons (num nan) nil)) (arr (cons (num nan) nil)) ≡ true
unfolding same_value
values_inside = refl

merge_compiled_test_cases_iff_example :
    (merge_compiled_test_cases plans ≡ ok (reading ∷ listing ∷ []))
    ↔ ((concat_of cases_of plans ≡ reading ∷ listing ∷ []) × Fresh [] (concat_of cases_of plans))
merge_compiled_test_cases_iff_example = merge_compiled_test_cases_iff plans (reading ∷ listing ∷ [])

merge_runtime_input_snapshots_hides_example :
    (secret_trace.sensitive ≡ true) × (secret_trace.value ≡ none)
merge_runtime_input_snapshots_hides_example =
    merge_runtime_input_snapshots_hides plans (secret_trace ∷ []) 1 0 0 plan secret_trace
      secret_trace traces_merged refl refl refl refl refl refl
