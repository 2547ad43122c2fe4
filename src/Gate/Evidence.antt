-- ===== src/Gate/Evidence.antt =====
-- A description of the evidence that the gate lets pass.
use conformance_suite_v.Base.{
  ℕ, ◌+◌, Bool, true, false, not, ◌&&◌, ◌||◌, Option, none, some, List, [], ◌∷◌, str_eq, ◌==◌,
  length, all,
}
use conformance_suite_v.Base.Json.{
  is_text, Json, null, num, str, arr, obj, integer, Fields, field_of, entries,
}
use conformance_suite_v.Gate.{is_nonempty}

-- a known status that is no failure
abbrev pub good_status : Option Json → Bool
good_status (some (str s)) = str_eq s "passed" || (str_eq s "warn" || str_eq s "skipped")
good_status _ = false

abbrev pub is_good : Json → Bool
is_good (obj fields) = good_status (field_of fields "status")
is_good _ = false

-- an array whose entries all pass
abbrev pub all_entries : (Json → Bool) → Option Json → Bool
all_entries p (some (arr items)) = all p (entries items)
all_entries p _ = false

abbrev pub is_good_case : Json → Bool
is_good_case (obj fields) =
    good_status (field_of fields "status") && all_entries is_good (field_of fields "steps")
is_good_case _ = false

abbrev pub is_good_group : Json → Bool
is_good_group (obj fields) =
    good_status (field_of fields "status") && all_entries is_good_case (field_of fields "testCases")
is_good_group _ = false

-- the summary reports no failure
abbrev pub is_zero : Option Json → Bool
is_zero (some (num (integer negative n))) = n == 0
is_zero _ = false

abbrev pub with_fields : (Fields → Bool) → Option Json → Bool
with_fields t (some (obj fields)) = t fields
with_fields t _ = false

abbrev pub entry_count : Option Json → ℕ
entry_count (some (arr items)) = length (entries items)
entry_count _ = 0

-- the number of cases of a list of groups
unfoldable pub cases_total : List Json → ℕ
cases_total [] = 0
cases_total (obj fields ∷ groups) = entry_count (field_of fields "testCases") + cases_total groups
cases_total (_ ∷ groups) = cases_total groups

-- the trace groups, which a DCR result must have, with at least one case
abbrev pub good_groups : Bool → Option Json → Bool
good_groups dcr none = not dcr
good_groups dcr (some null) = not dcr
good_groups dcr (some (arr items)) =
    all is_good_group (entries items) && not (dcr && cases_total (entries items) == 0)
good_groups dcr _ = false

abbrev pub is_scalar : Option Json → Bool
is_scalar (some (arr _)) = false
is_scalar (some (obj _)) = false
is_scalar _ = true

abbrev pub names_dcr : Option Json → Bool
names_dcr api = is_text "dcr" api || is_text "dynamic-client-registration" api

abbrev pub good_catalogue : Option Json → Bool
good_catalogue none = true
good_catalogue (some null) = true
good_catalogue (some (obj fields)) =
    is_scalar (field_of fields "api")
    && good_groups (names_dcr (field_of fields "api")) (field_of fields "traceGroups")
good_catalogue _ = false

abbrev pub good_steps : Option Json → Bool
good_steps (some (arr items)) = is_nonempty (entries items) && all is_good (entries items)
good_steps _ = false

-- the results that count as evidence
abbrev pub is_evidence : Json → Bool
is_evidence (obj result) =
    is_text "passed" (field_of result "status")
    && (with_fields (λ summary. is_zero (field_of summary "failed")) (field_of result "summary")
        && (good_steps (field_of result "steps") && good_catalogue (field_of result "catalogue")))
is_evidence _ = false
