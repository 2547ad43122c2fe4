-- ===== src/Tests/Gates.antt =====
-- The gate on small results (conformance/result_gate.py).
use conformance_suite_v.Base.{◌≡◌, refl, false, ok, err, is_ok, count_if, elem}
use conformance_suite_v.Base.Json.{
  Json, num, str, arr, obj, integer, nil, cons, end, field, field_of, entries,
}
use conformance_suite_v.Gate.{
  validate_structured_conformance_result, statuses_at, count_cases, reject_failed_trace_cases, root,
  part, index, failed_case_step, unhashable,
}
use conformance_suite_v.Gate.Evidence.{is_evidence}
use conformance_suite_v.Gate.Acceptance.{validate_iff_evidence}

abbrev with_status : Json → Json
with_status s = obj (field "status" s end)

abbrev result_of : Json → Json → Json
result_of api nested = obj (
    field "status" (str "passed") (
      field "summary" (obj (field "failed" (num (integer false 0)) end)) (
        field "steps" (arr (cons (with_status (str "warn")) nil)) (
          field "catalogue"
            (obj (
              field "api" api (
                field "traceGroups"
                  (arr (
                    cons
                      (obj (
                        field "status" (str "passed") (
                          field "testCases"
                            (arr (
                              cons
                                (obj (
                                  field "status" (str "passed")
                                    (field "steps" (arr (cons (with_status nested) nil)) end)))
                                nil))
                            end)))
                      nil))
                  end)))
            end))))

accepted :
    validate_structured_conformance_result (result_of (str "dcr") (str "skipped"))
    ≡ ok (record { step_count = 1; case_count = 1 })
unfolding validate_structured_conformance_result statuses_at count_cases reject_failed_trace_cases
    field_of entries count_if elem
accepted = refl

nested_failure :
    validate_structured_conformance_result (result_of (str "dcr") (str "failed"))
    ≡ err (
        failed_case_step (
          part
            (index (part (index (part (part root "catalogue") "traceGroups") 0) "testCases") 0)
            "steps"))
unfolding validate_structured_conformance_result statuses_at count_cases reject_failed_trace_cases
    field_of entries count_if elem
nested_failure = refl

odd_api :
    validate_structured_conformance_result (result_of (arr nil) (str "passed")) ≡ err unhashable
unfolding validate_structured_conformance_result statuses_at count_cases reject_failed_trace_cases
    field_of entries count_if elem
odd_api = refl

validate_iff_evidence_example :
    is_ok (validate_structured_conformance_result (result_of (str "dcr") (str "skipped")))
    ≡ is_evidence (result_of (str "dcr") (str "skipped"))
validate_iff_evidence_example = validate_iff_evidence (result_of (str "dcr") (str "skipped"))
