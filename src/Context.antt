-- ===== src/Context.antt =====
-- conformance/context.py: what the steps of a run pass on, and the dot paths by which a later step reads
-- it. `str` of a float and the Unicode table of decimal digits are Python's own, and are arguments.
pub mod Recorded
pub mod Missing
use Prim.Native.Nat.{◌*◌}
use Prim.Native.Char.{Char}
use Prim.Native.String.{count}
use Prim.Native.String
use conformance_suite_v.Base.{
  ℕ, ◌+◌, String, Bool, true, false, not, ◌&&◌, ◌||◌, Option, none, some, List, [], ◌∷◌, Result, ok,
  err, ◌>>=◌, ltb, str_eq, if◌then◌else◌, is_some, elem,
}
use conformance_suite_v.Base.Json.{
  Json, null, bool, num, str, arr, obj, Number, integer, Fields, field_of, entries,
}
use conformance_suite_v.Base.Dict.{Dict, get, put}
use conformance_suite_v.Base.Split.{split, decimal, get_elem?}

pub record RequestRecord : Type 0 where
  pub method : String
  pub url : String

pub record ResponseRecord : Type 0 where
  pub status_code : ℕ
  pub headers : Dict String
  pub body : Fields

pub record StepRecord : Type 0 where
  pub request : RequestRecord
  pub response : Option ResponseRecord

pub record RuntimeConfig : Type 0 where
  pub discovery_url : Option String
  pub oauth_resource_base_url : Option String
  pub oauth_client_id : Option String
  pub oauth_redirect_uri : Option String
  pub oauth_authorization_endpoint : Option String
  pub oauth_issuer : Option String
  pub oauth_token_endpoint : Option String
  pub oauth_response_type : Option String
  pub oauth_request_object_signing_alg : Option String

pub record TokenRecord : Type 0 where
  pub access_token : String

pub record ExecutionContext : Type 0 where
  pub steps : Dict StepRecord
  pub tokens : Dict TokenRecord
  pub config : Option RuntimeConfig

unfoldable pub record_step :
    ExecutionContext → String → RequestRecord → Option ResponseRecord → ExecutionContext
record_step context step_id request response = record context {
  steps = put context.steps step_id (record { request = request; response = response });
}

unfoldable pub record_token : ExecutionContext → String → String → ExecutionContext
record_token context token_id access_token = record context {
  tokens = put context.tokens token_id (record { access_token = access_token });
}

-- the messages of `PlaceholderResolutionError`, and after them the two of its subclass
-- `MissingPredecessorResponseError`
pub data PlaceholderError : Type 0 where
  empty_placeholder : PlaceholderError
  unterminated : PlaceholderError
  invalid_path : PlaceholderError
  step_not_found : String → PlaceholderError
  invalid_direction : String → PlaceholderError
  unsupported_config : PlaceholderError
  no_config : PlaceholderError
  no_value : String → PlaceholderError
  no_oauth : PlaceholderError
  unsupported_token : PlaceholderError
  unsupported_token_field : String → PlaceholderError
  request_path : PlaceholderError
  response_path : PlaceholderError
  not_numeric : String → PlaceholderError
  out_of_bounds : ℕ → PlaceholderError
  segment_not_found : String → PlaceholderError
  not_traversable : String → PlaceholderError
  not_primitive : PlaceholderError
  no_response : String → PlaceholderError
  token_not_found : String → PlaceholderError

abbrev pub Resolved : Type 0
Resolved = Result PlaceholderError String

abbrev value_or : PlaceholderError → Option String → Resolved
value_or error none = err error
value_or error (some value) = ok value

abbrev oauth_fields : List String
oauth_fields =
    "clientId" ∷ "redirectUri" ∷ "authorizationEndpoint" ∷ "issuer" ∷ "tokenEndpoint"
    ∷ "resourceBaseUrl" ∷ "responseType" ∷ "requestObjectSigningAlg" ∷ []

-- the error of a field that is missing, which depends on whether there is any OAuth configuration
abbrev missing_field : String → RuntimeConfig → PlaceholderError
missing_field field c =
    if is_some c.oauth_client_id || is_some c.oauth_redirect_uri then no_value field else no_oauth

abbrev oauth_value : String → RuntimeConfig → Resolved
oauth_value field c =
    if str_eq field "clientId"
    then value_or no_oauth c.oauth_client_id
    else if str_eq field "resourceBaseUrl"
    then value_or (missing_field field c) c.oauth_resource_base_url
    else if str_eq field "authorizationEndpoint"
    then value_or (missing_field field c) c.oauth_authorization_endpoint
    else if str_eq field "issuer"
    then value_or (no_value field) c.oauth_issuer
    else if str_eq field "tokenEndpoint"
    then value_or (no_value field) c.oauth_token_endpoint
    else if str_eq field "responseType"
    then value_or (no_value field) c.oauth_response_type
    else if str_eq field "requestObjectSigningAlg"
    then value_or (no_value field) c.oauth_request_object_signing_alg
    else value_or no_oauth c.oauth_redirect_uri

abbrev with_config : (RuntimeConfig → Resolved) → Option RuntimeConfig → Resolved
with_config read none = err no_config
with_config read (some c) = read c

-- `_resolve_config_path`, on the segments after `config`
unfoldable pub resolve_config_path : List String → ExecutionContext → Resolved
resolve_config_path (field ∷ []) context =
    if str_eq field "discoveryUrl"
    then with_config (λ c. value_or (no_value field) c.discovery_url) context.config
    else err unsupported_config
resolve_config_path (oauth ∷ field ∷ []) context =
    if str_eq oauth "oauth" && elem field oauth_fields
    then with_config (oauth_value field) context.config
    else err unsupported_config
resolve_config_path _ context = err unsupported_config

abbrev token_field : String → String → Option TokenRecord → Resolved
token_field token_id field none = err (token_not_found token_id)
token_field token_id field (some token) =
    if str_eq field "access_token"
    then ok token.access_token
    else err (unsupported_token_field field)

-- `_resolve_token_path`, on the segments after `tokens`
unfoldable pub resolve_token_path : List String → ExecutionContext → Resolved
resolve_token_path (token_id ∷ field ∷ []) context =
    token_field token_id field (get context.tokens token_id)
resolve_token_path _ context = err unsupported_token

unfoldable pub resolve_request_path : RequestRecord → String → List String → Resolved
resolve_request_path request field [] =
    if str_eq field "method"
    then ok request.method
    else if str_eq field "url"
    then ok request.url
    else err request_path
resolve_request_path request field (_ ∷ _) = err request_path

-- what is Python's own: the text of a float, and the value of a character that is a decimal digit
pub record Python : Type 0 where
  pub float_text : Number → String
  pub digit_of : Char → Option ℕ

-- the limit that `int` sets on the digits of a text
abbrev pub int_max_str_digits : ℕ
int_max_str_digits = 4300

module _ (py : Python) where
  -- `int(segment)`, from a value that was read before
  unfoldable pub digits_from : ℕ → String → Option ℕ
  digits_from value String.[] = some value
  digits_from value (String.◌∷◌ c s) = elim (py.digit_of c) [
    | none ↦ none
    | some d ↦ digits_from (value * 10 + d) s
  ]

  -- `segment.isdecimal()`, and the `ValueError` that a long text raises
  abbrev pub index_of : String → Option ℕ
  index_of String.[] = none
  index_of (String.◌∷◌ c s) =
      if ltb int_max_str_digits (count (String.◌∷◌ c s))
      then none
      else digits_from 0 (String.◌∷◌ c s)

  abbrev at_index : List Json → Option ℕ → String → Result PlaceholderError Json
  at_index items none segment = err (not_numeric segment)
  at_index items (some i) segment = elim (get_elem? items i) [
    | none ↦ err (out_of_bounds i)
    | some value ↦ ok value
  ]

  -- `_resolve_list_segment`
  unfoldable pub resolve_list_segment : List Json → String → Result PlaceholderError Json
  resolve_list_segment items segment = at_index items (index_of segment) segment

  -- one round of the loop
  abbrev traverse : Json → String → Result PlaceholderError Json
  traverse (obj fields) segment = elim (field_of fields segment) [
    | none ↦ err (segment_not_found segment)
    | some value ↦ ok value
  ]
  traverse (arr items) segment = resolve_list_segment (entries items) segment
  traverse _ segment = err (not_traversable segment)

  abbrev minus : Bool → String → String
  minus true text = String.◌++◌ "-" text
  minus false text = text

  -- `str(current)`
  abbrev pub primitive_text : Json → Resolved
  primitive_text null = ok "null"
  primitive_text (bool true) = ok "True"
  primitive_text (bool false) = ok "False"
  primitive_text (num (integer negative n)) = ok (minus negative (decimal n))
  primitive_text (num n) = ok (py.float_text n)
  primitive_text (str s) = ok s
  primitive_text (arr items) = err not_primitive
  primitive_text (obj fields) = err not_primitive

  -- `_resolve_body_path`
  unfoldable pub resolve_body_path : Json → List String → Resolved
  resolve_body_path current [] = primitive_text current
  resolve_body_path current (segment ∷ segments) = do
    next ← traverse current segment
    resolve_body_path next segments

  abbrev body_path : ResponseRecord → String → List String → Resolved
  body_path response field rest =
      if str_eq field "body" then resolve_body_path (obj response.body) rest else err response_path

  unfoldable pub resolve_response_path : ResponseRecord → String → List String → Resolved
  resolve_response_path response field [] =
      if str_eq field "status_code"
      then ok (decimal response.status_code)
      else body_path response field []
  resolve_response_path response field (s ∷ segments) = body_path response field (s ∷ segments)

  abbrev response_of : String → Option ResponseRecord → String → List String → Resolved
  response_of step_id none field rest = err (no_response step_id)
  response_of step_id (some response) field rest = resolve_response_path response field rest

  abbrev pub direction_of : String → StepRecord → String → String → List String → Resolved
  direction_of step_id r direction field rest =
      if str_eq direction "request"
      then resolve_request_path r.request field rest
      else if str_eq direction "response"
      then response_of step_id r.response field rest
      else err (invalid_direction direction)

  abbrev step_of : String → Option StepRecord → String → String → List String → Resolved
  step_of step_id none direction field rest = err (step_not_found step_id)
  step_of step_id (some r) direction field rest = direction_of step_id r direction field rest

  -- the paths that begin with neither `config` nor `tokens`
  abbrev step_path : List String → ExecutionContext → Resolved
  step_path (steps ∷ step_id ∷ direction ∷ field ∷ rest) context =
      if str_eq steps "steps"
      then step_of step_id (get context.steps step_id) direction field rest
      else err invalid_path
  step_path _ context = err invalid_path

  -- `_resolve_dot_path`, on the segments of the path
  unfoldable pub resolve_segments : List String → ExecutionContext → Resolved
  resolve_segments [] context = err invalid_path
  resolve_segments (first ∷ rest) context =
      if str_eq first "config"
      then resolve_config_path rest context
      else if str_eq first "tokens"
      then resolve_token_path rest context
      else step_path (first ∷ rest) context

  unfoldable pub resolve_dot_path : String → ExecutionContext → Resolved
  unfolding resolve_segments
  resolve_dot_path path context = resolve_segments (split b'.' path) context
