-- ===== src/Report/Development.antt =====
-- `mark_development_result_evidence` of conformance/results.py: a run in development mode is marked as
-- no evidence for certification.
use conformance_suite_v.Base.{
  String, ◌≡◌, refl, ◌∙◌, ◌||◌, eq_refl, Bool, true, false, not, ◌&&◌, Option, none, some, List, [],
  ◌∷◌, ◌++◌, arith, if◌then◌else◌, any,
}
use conformance_suite_v.Base.Json.{
  Json, null, bool, num, str, arr, obj, Fields, end, field, field_of, entries, is_text, set_field,
  items_of, entries-items_of, field_of-set_field,
}

abbrev pub reason_text : String
reason_text = "Development-mode run is not certification evidence"

-- `text in values`
abbrev pub holds_text : String → List Json → Bool
holds_text text values = any (λ v. is_text text (some v)) values

abbrev pub array_or_empty : Option Json → List Json
array_or_empty (some (arr items)) = entries items
array_or_empty _ = []

-- `if message not in reasons: reasons.append(message)`, for a message that is a text
abbrev pub add_message : Option Json → List Json → List Json
add_message (some (str message)) reasons =
    if holds_text message reasons then reasons else reasons ++ str message ∷ []
add_message _ reasons = reasons

abbrev pub add_issue : Json → List Json → List Json
add_issue (obj issue) reasons =
    if is_text "warning" (field_of issue "severity")
    then add_message (field_of issue "message") reasons
    else reasons
add_issue _ reasons = reasons

unfoldable pub add_issues : List Json → List Json → List Json
add_issues [] reasons = reasons
add_issues (issue ∷ issues) reasons = add_issues issues (add_issue issue reasons)

-- `reasons.insert(0, reason)`, unless it is there
abbrev pub with_reason : List Json → List Json
with_reason reasons = if holds_text reason_text reasons then reasons else str reason_text ∷ reasons

abbrev pub marked_reasons : Fields → Fields → List Json
marked_reasons validation eligibility =
    add_issues (array_or_empty (field_of validation "issues"))
      (with_reason (array_or_empty (field_of eligibility "reasons")))

abbrev pub marked_eligibility : Fields → Fields → Fields
marked_eligibility validation eligibility =
    set_field (set_field (set_field eligibility "eligible" (bool false)) "reason" (str reason_text))
      "reasons" (arr (items_of (marked_reasons validation eligibility)))

abbrev pub marked_metadata : Option Json → Json
marked_metadata (some (obj metadata)) = obj (set_field metadata "executionMode" (str "development"))
marked_metadata _ = obj (field "executionMode" (str "development") end)

abbrev pub mark_eligibility : Fields → Option Json → Fields → Fields
mark_eligibility validation (some (obj eligibility)) result =
    set_field result "certificationEligibility" (obj (marked_eligibility validation eligibility))
mark_eligibility validation _ result = result

-- the result as the call leaves it
unfoldable pub mark_development_result_evidence : Fields → Fields → Fields
mark_development_result_evidence validation result =
    if is_text "development" (field_of validation "executionMode")
    then mark_eligibility validation
        (field_of (set_field result "metadata" (marked_metadata (field_of result "metadata")))
          "certificationEligibility")
        (set_field result "metadata" (marked_metadata (field_of result "metadata")))
    else result

abbrev pub is_false : Option Json → Bool
is_false (some (bool b)) = not b
is_false _ = false

-- the block says that the run is not eligible, and why
abbrev pub is_refused : Option Json → Bool
is_refused (some (obj e)) =
    is_false (field_of e "eligible")
    && (is_text reason_text (field_of e "reason")
        && holds_text reason_text (array_or_empty (field_of e "reasons")))
is_refused _ = false

holds-append :
    (text : String) (xs ys : List Json)
    → holds_text text (xs ++ ys) ≡ (holds_text text xs || holds_text text ys)
unfolding any
holds-append text [] ys = refl
holds-append text (x ∷ xs) ys = ground (arith, holds-append text xs ys)

holds-with_reason : (reasons : List Json) → holds_text reason_text (with_reason reasons) ≡ true
unfolding any
holds-with_reason reasons = ground (arith, eq_refl reason_text)

holds-add_message :
    (text : String) (o : Option Json) (reasons : List Json)
    → holds_text text reasons ≡ true
    → holds_text text (add_message o reasons) ≡ true
holds-add_message text (some (str m)) reasons h =
    ground (arith, holds-append text reasons (str m ∷ []))
holds-add_message text none reasons h = h
holds-add_message text (some null) reasons h = h
holds-add_message text (some (bool b)) reasons h = h
holds-add_message text (some (num n)) reasons h = h
holds-add_message text (some (arr a)) reasons h = h
holds-add_message text (some (obj f)) reasons h = h

holds-add_issue :
    (text : String) (issue : Json) (reasons : List Json)
    → holds_text text reasons ≡ true
    → holds_text text (add_issue issue reasons) ≡ true
holds-add_issue text (obj f) reasons h =
    ground (arith, holds-add_message text (field_of f "message") reasons h)
holds-add_issue text null reasons h = h
holds-add_issue text (bool b) reasons h = h
holds-add_issue text (num n) reasons h = h
holds-add_issue text (str s) reasons h = h
holds-add_issue text (arr a) reasons h = h

holds-add_issues :
    (text : String) (issues reasons : List Json)
    → holds_text text reasons ≡ true
    → holds_text text (add_issues issues reasons) ≡ true
unfolding add_issues
holds-add_issues text [] reasons h = h
holds-add_issues text (i ∷ issues) reasons h =
    holds-add_issues text issues (add_issue i reasons) (holds-add_issue text i reasons h)

refused-marked :
    (validation eligibility : Fields)
    → is_refused (some (obj (marked_eligibility validation eligibility))) ≡ true
refused-marked validation eligibility =
    let given = array_or_empty (field_of eligibility "reasons") in
    let issues = array_or_empty (field_of validation "issues") in
    let kept = holds-add_issues reason_text issues (with_reason given) (holds-with_reason given) in
    simp (field_of-set_field, entries-items_of, kept)

-- The result of a run in development mode that has an eligibility block says, once it is marked, that
-- the run is not eligible, with the development mode as primary reason and among all its reasons.
pub mark_development_result_evidence-is_refused :
    (validation result eligibility : Fields)
    → is_text "development" (field_of validation "executionMode") ≡ true
    → field_of result "certificationEligibility" ≡ some (obj eligibility)
    → is_refused
        (field_of (mark_development_result_evidence validation result) "certificationEligibility")
      ≡ true
unfolding mark_development_result_evidence
mark_development_result_evidence-is_refused validation result eligibility mode found =
    let noted = set_field result "metadata" (marked_metadata (field_of result "metadata")) in
    let still : field_of noted "certificationEligibility" ≡ some (obj eligibility) =
      field_of-set_field result "metadata" "certificationEligibility"
        (marked_metadata (field_of result "metadata"))
      ∙ found in
    rw
      (
        mode,
        still,
        field_of-set_field noted "certificationEligibility" "certificationEligibility"
            (obj (marked_eligibility validation eligibility)),
      )
      (refused-marked validation eligibility)
