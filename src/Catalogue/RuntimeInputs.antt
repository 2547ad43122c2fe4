-- ===== src/Catalogue/RuntimeInputs.antt =====
-- The snapshot of a plan's runtime inputs, in conformance/catalogue.py: the checks of the values that
-- the plan gives, and what the trace shows of them. The check of an address by
-- conformance/url_validation.py is an argument, which gives the text of its exception if there is one.
pub mod Snapshot
use Prim.Native.Char.{Char}
use Prim.Native.String
use conformance_suite_v.Base.{
  String, Bool, true, false, not, ◌&&◌, Option, none, some, List, [], ◌∷◌, Result, ok, err, ◌>>=◌,
  ◌>>◌, str_eq, if◌then◌else◌, elem, any, filter,
}
use conformance_suite_v.Base.Json.{Json, null, bool, num, str}
use conformance_suite_v.Base.Dict.{Dict, get, keys}
use conformance_suite_v.Base.Text.{sorted_set}
use conformance_suite_v.Catalogue.{
  RuntimeInputRequirement, CatalogueTestCase, CatalogueError, unsupported_header_inputs,
  input_not_from_plan, missing_input, not_a_text, not_an_address, refused_address, not_a_number,
  not_a_boolean,
}
use conformance_suite_v.Catalogue.Capabilities.{is_space, is_blank}
use conformance_suite_v.Catalogue.Requirements.{combined_runtime_requirements}

abbrev pub request_header_input_ids : List String
request_header_input_ids =
    "idempotencyKey" ∷ "xCustomerUserAgent" ∷ "xFapiAuthDate" ∷ "xFapiCustomerIpAddress"
    ∷ "xFapiFinancialId" ∷ "xFapiInteractionId" ∷ []

-- `s.rstrip()`
abbrev pub keep_right : Bool → Char → String → String
keep_right true c String.[] = String.[]
keep_right false c String.[] = String.◌∷◌ c String.[]
keep_right space c (String.◌∷◌ d s) = String.◌∷◌ c (String.◌∷◌ d s)

unfoldable pub strip_right : String → String
strip_right String.[] = String.[]
strip_right (String.◌∷◌ c s) = keep_right (is_space c) c (strip_right s)

-- `s.strip()`
unfoldable pub strip : String → String
unfolding strip_right
strip String.[] = String.[]
strip (String.◌∷◌ c s) =
    let rest = strip s in if is_space c then rest else strip_right (String.◌∷◌ c s)

abbrev pub refuse_address : Option String → Result CatalogueError (Unit {0})
refuse_address none = ok tt
refuse_address (some message) = err (refused_address message)

module _ (https_url_error : String → Option String) where
  abbrev pub validate_text : String → Json → Result CatalogueError (Unit {0})
  validate_text i (str s) = if is_blank s then err (not_a_text i) else ok tt
  validate_text i _ = err (not_a_text i)

  abbrev pub validate_address : String → Json → Result CatalogueError (Unit {0})
  validate_address i (str s) =
      if is_blank s then err (not_an_address i) else refuse_address (https_url_error (strip s))
  validate_address i _ = err (not_an_address i)

  abbrev pub validate_number : String → Json → Result CatalogueError (Unit {0})
  validate_number i (num n) = ok tt
  validate_number i _ = err (not_a_number i)

  abbrev pub validate_boolean : String → Json → Result CatalogueError (Unit {0})
  validate_boolean i (bool b) = ok tt
  validate_boolean i _ = err (not_a_boolean i)

  -- `_validate_runtime_input_value`
  unfoldable pub validate_runtime_input_value :
      RuntimeInputRequirement → Json → Result CatalogueError (Unit {0})
  validate_runtime_input_value r value =
      if elem r.input_type ("string" ∷ "file_reference" ∷ [])
      then validate_text r.input_id value
      else if str_eq r.input_type "url"
      then validate_address r.input_id value
      else if str_eq r.input_type "number"
      then validate_number r.input_id value
      else if str_eq r.input_type "boolean"
      then validate_boolean r.input_id value
      else ok tt

-- `runtime_inputs.get(input_id)`, where a missing value and `None` are the same
abbrev pub not_null : Option Json → Option Json
not_null (some null) = none
not_null found = found

unfoldable pub given : Dict Json → String → Option Json
given inputs i = not_null (get inputs i)

pub record RuntimeInputTrace : Type 0 where
  pub input_id : String
  pub input_type : String
  pub required : Bool
  pub sensitive : Bool
  pub provided : Bool
  pub value : Option Json

abbrev pub trace : RuntimeInputRequirement → Bool → Bool → Option Json → RuntimeInputTrace
trace r required provided value = record {
  input_id = r.input_id;
  input_type = r.input_type;
  required = required;
  sensitive = r.sensitive;
  provided = provided;
  value = value;
}

-- an input whose values are made or captured during the run
abbrev pub trace_elsewhere :
    RuntimeInputRequirement → Option Json → Result CatalogueError RuntimeInputTrace
trace_elsewhere r none = ok (trace r false false none)
trace_elsewhere r (some value) = err (input_not_from_plan r.input_id r.source)

-- `_reject_unsupported_request_header_runtime_inputs`
unfoldable pub unsupported_headers : List RuntimeInputRequirement → List String → List String
unsupported_headers requirements supplied =
    filter
      (λ i.
        elem i request_header_input_ids
        && not (any (λ (r : RuntimeInputRequirement). str_eq r.input_id i) requirements))
      supplied

abbrev pub refuse_headers : List String → Result CatalogueError (Unit {0})
refuse_headers [] = ok tt
refuse_headers (i ∷ ids) = err (unsupported_header_inputs (sorted_set (i ∷ ids)))

unfoldable pub reject_unsupported_headers :
    List RuntimeInputRequirement → Dict Json → Result CatalogueError (Unit {0})
unfolding unsupported_headers
reject_unsupported_headers requirements inputs =
    refuse_headers (unsupported_headers requirements (keys inputs))

module _ (https_url_error : String → Option String) (inputs : Dict Json) where
  abbrev pub trace_plan :
      RuntimeInputRequirement → Option Json → Result CatalogueError RuntimeInputTrace
  trace_plan r none =
      if r.required then err (missing_input r.input_id) else ok (trace r r.required false none)
  trace_plan r (some value) = do
    validate_runtime_input_value https_url_error r value
    ok (trace r r.required true (if r.sensitive then none else some value))

  -- the body of the loop of `_runtime_input_snapshot`
  unfoldable pub trace_input : RuntimeInputRequirement → Result CatalogueError RuntimeInputTrace
  unfolding given validate_runtime_input_value
  trace_input r =
      if str_eq r.source "plan"
      then trace_plan r (given inputs r.input_id)
      else trace_elsewhere r (given inputs r.input_id)

  unfoldable pub trace_inputs :
      List RuntimeInputRequirement → Result CatalogueError (List RuntimeInputTrace)
  trace_inputs [] = ok []
  trace_inputs (r ∷ rs) = do first ← trace_input r; rest ← trace_inputs rs; ok (first ∷ rest)

  unfoldable pub runtime_input_snapshot :
      Dict CatalogueTestCase → List String → Result CatalogueError (List RuntimeInputTrace)
  unfolding combined_runtime_requirements reject_unsupported_headers trace_inputs
  runtime_input_snapshot cases ids = do
    requirements ← combined_runtime_requirements cases ids
    reject_unsupported_headers requirements inputs
    trace_inputs requirements
