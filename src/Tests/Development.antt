-- ===== src/Tests/Development.antt =====
-- A development run (conformance/results.py) is marked in its result.
use conformance_suite_v.Base.{◌≡◌, refl, true, false, some, any}
use conformance_suite_v.Base.Json.{
  Json, str, bool, arr, obj, Fields, nil, cons, end, field, field_of, is_text, entries, items_of,
  set_field,
}
use conformance_suite_v.Report.Development.{
  reason_text, add_issues, mark_development_result_evidence, is_refused,
  mark_development_result_evidence-is_refused,
}

abbrev warning : Json
warning = obj (field "severity" (str "warning") (field "message" (str "sandbox bank") end))

abbrev validation : Fields
validation =
    field "executionMode" (str "development")
      (field "issues" (arr (cons warning (cons warning nil))) end)

abbrev eligibility : Fields
eligibility = field "eligible" (bool true) end

abbrev result : Fields
result = field "status" (str "passed") (field "certificationEligibility" (obj eligibility) end)

marked :
    mark_development_result_evidence validation result
    ≡ field "status" (str "passed") (
        field "certificationEligibility"
          (obj (
            field "eligible" (bool false) (
              field "reason" (str reason_text) (
                field "reasons"
                  (arr (cons (str reason_text) (cons (str "sandbox bank") nil)))
                  end))))
          (field "metadata" (obj (field "executionMode" (str "development") end)) end))
unfolding mark_development_result_evidence field_of set_field entries items_of add_issues any
marked = refl

in_development : is_text "development" (field_of validation "executionMode") ≡ true
unfolding field_of
in_development = refl

has_block : field_of result "certificationEligibility" ≡ some (obj eligibility)
unfolding field_of
has_block = refl

mark_development_result_evidence-is_refused_example :
    is_refused
      (field_of (mark_development_result_evidence validation result) "certificationEligibility")
    ≡ true
mark_development_result_evidence-is_refused_example =
    mark_development_result_evidence-is_refused validation result eligibility in_development
      has_block
