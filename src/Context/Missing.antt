-- ===== src/Context/Missing.antt =====
-- Which placeholders wait for a predecessor (conformance/context.py): the executor skips a step whose
-- placeholder does, and fails one whose placeholder is wrong.
use conformance_suite_v.Base.{
  String, ◌≡◌, refl, Bool, true, false, ◌&&◌, Option, none, some, List, [], ◌∷◌, Result, ok, err,
  arith, str_eq, if◌then◌else◌, elem, eq_iff, is_some, not, ℕ, ◌>>=◌,
}
use conformance_suite_v.Base.Json.{Json, null, bool, num, str, arr, obj, integer, entries}
use conformance_suite_v.Base.Dict.{get}
use conformance_suite_v.Base.Split.{split}
use conformance_suite_v.Context.{
  oauth_fields, missing_field, no_value, no_oauth, unsupported_config, at_index, index_of, traverse,
  primitive_text, response_of, step_of, RequestRecord, ResponseRecord, ExecutionContext, StepRecord,
  TokenRecord, RuntimeConfig, Python, PlaceholderError, no_response, token_not_found, value_or,
  with_config, oauth_value, resolve_config_path, token_field, resolve_token_path,
  resolve_request_path, resolve_list_segment, resolve_body_path, resolve_response_path,
  resolve_segments, resolve_dot_path,
}

-- `isinstance(error, MissingPredecessorResponseError)`
abbrev pub is_missing_error : PlaceholderError → Bool
is_missing_error (no_response step_id) = true
is_missing_error (token_not_found token_id) = true
is_missing_error _ = false

abbrev pub is_missing : {A : Type 0} → Result PlaceholderError A → Bool
is_missing (ok value) = false
is_missing (err error) = is_missing_error error

-- a step that is recorded, without a response
abbrev has_no_response : Option StepRecord → Bool
has_no_response none = false
has_no_response (some r) = not (is_some r.response)

-- the path reads a token that is not there, or the response of a recorded step that has none
abbrev pub waits : List String → ExecutionContext → Bool
waits (first ∷ second ∷ third ∷ []) context =
    str_eq first "tokens" && not (is_some (get context.tokens second))
waits (first ∷ step_id ∷ direction ∷ field ∷ rest) context =
    str_eq first "steps"
    && (str_eq direction "response" && has_no_response (get context.steps step_id))
waits _ context = false

-- a text that is one of two different ones is not the other
pub not_both : (s t a : String) → str_eq s t ≡ false → str_eq a s ≡ true → str_eq a t ≡ false
not_both s t a h e = ground (arith, eq_iff a s, eq_iff a t, eq_iff s t)

value_or-waits :
    (e : PlaceholderError) (o : Option String)
    → is_missing_error e ≡ false
    → is_missing (value_or e o) ≡ false
value_or-waits e none h = h
value_or-waits e (some v) h = refl

oauth_value-waits : (field : String) (c : RuntimeConfig) → is_missing (oauth_value field c) ≡ false
oauth_value-waits field c =
    let missing : is_missing_error (missing_field field c) ≡ false = ground arith in
    ground (
      arith,
      value_or-waits no_oauth c.oauth_client_id refl,
      value_or-waits (missing_field field c) c.oauth_resource_base_url missing,
      value_or-waits (missing_field field c) c.oauth_authorization_endpoint missing,
      value_or-waits (no_value field) c.oauth_issuer refl,
      value_or-waits (no_value field) c.oauth_token_endpoint refl,
      value_or-waits (no_value field) c.oauth_response_type refl,
      value_or-waits (no_value field) c.oauth_request_object_signing_alg refl,
      value_or-waits no_oauth c.oauth_redirect_uri refl,
    )

config-waits :
    (rest : List String) (context : ExecutionContext)
    → is_missing (resolve_config_path rest context) ≡ false
unfolding resolve_config_path
config-waits [] context = refl
config-waits (field ∷ []) context = go context.config
  where
    go :
        (o : Option RuntimeConfig)
        → is_missing (
            if str_eq field "discoveryUrl"
            then with_config (λ c. value_or (no_value field) c.discovery_url) o
            else err unsupported_config)
          ≡ false
    go none = ground arith
    go (some c) = ground (arith, value_or-waits (no_value field) c.discovery_url refl)
config-waits (oauth ∷ field ∷ []) context = go context.config
  where
    go :
        (o : Option RuntimeConfig)
        → is_missing (
            if str_eq oauth "oauth" && elem field oauth_fields
            then with_config (oauth_value field) o
            else err unsupported_config)
          ≡ false
    go none = ground arith
    go (some c) = ground (arith, oauth_value-waits field c)
config-waits (a ∷ b ∷ c ∷ rest) context = refl

token-waits :
    (token_id field : String) (o : Option TokenRecord)
    → is_missing (token_field token_id field o) ≡ not (is_some o)
token-waits token_id field none = refl
token-waits token_id field (some token) = ground arith

request-waits :
    (r : RequestRecord) (field : String) (rest : List String)
    → is_missing (resolve_request_path r field rest) ≡ false
unfolding resolve_request_path
request-waits r field [] = ground arith
request-waits r field (s ∷ rest) = refl

module _ (py : Python) where
  primitive-waits : (value : Json) → is_missing (primitive_text py value) ≡ false
  primitive-waits null = refl
  primitive-waits (bool true) = refl
  primitive-waits (bool false) = refl
  primitive-waits (num (integer s n)) = refl
  primitive-waits (num n) = refl
  primitive-waits (str s) = refl
  primitive-waits (arr items) = refl
  primitive-waits (obj fields) = refl

  at_index-waits :
      (items : List Json) (o : Option ℕ) (segment : String)
      → is_missing (at_index py items o segment) ≡ false
  at_index-waits items none segment = refl
  at_index-waits items (some i) segment = ground arith

  traverse-waits :
      (value : Json) (segment : String) → is_missing (traverse py value segment) ≡ false
  unfolding resolve_list_segment
  traverse-waits (obj fields) segment = ground arith
  traverse-waits (arr items) segment = at_index-waits (entries items) (index_of py segment) segment
  traverse-waits null segment = refl
  traverse-waits (bool b) segment = refl
  traverse-waits (num n) segment = refl
  traverse-waits (str s) segment = refl

  body-waits :
      (value : Json) (segments : List String)
      → is_missing (resolve_body_path py value segments) ≡ false
  unfolding resolve_body_path
  body-waits value [] = primitive-waits value
  body-waits value (segment ∷ segments) =
      go (traverse py value segment) (traverse-waits value segment)
        (λ next. body-waits next segments)
    where
      go :
          (o : Result PlaceholderError Json)
          → is_missing o ≡ false
          → ((next : Json) → is_missing (resolve_body_path py next segments) ≡ false)
          → is_missing (o >>= λ next. resolve_body_path py next segments) ≡ false
      go (ok next) h ih = ih next
      go (err e) h ih = h

  response-waits :
      (r : ResponseRecord) (field : String) (rest : List String)
      → is_missing (resolve_response_path py r field rest) ≡ false
  unfolding resolve_response_path
  response-waits r field [] = ground (arith, body-waits (obj r.body) [])
  response-waits r field (s ∷ rest) = ground (arith, body-waits (obj r.body) (s ∷ rest))

  response_of-waits :
      (step_id : String) (o : Option ResponseRecord) (field : String) (rest : List String)
      → is_missing (response_of py step_id o field rest) ≡ not (is_some o)
  response_of-waits step_id none field rest = refl
  response_of-waits step_id (some r) field rest = response-waits r field rest

  step-waits :
      (step_id : String) (o : Option StepRecord) (direction field : String) (rest : List String)
      → is_missing (step_of py step_id o direction field rest)
        ≡ (str_eq direction "response" && has_no_response o)
  step-waits step_id none direction field rest = ground arith
  step-waits step_id (some r) direction field rest = ground (
    arith,
    not_both "request" "response" direction refl,
    request-waits r.request field rest,
    response_of-waits step_id r.response field rest,
  )

  segments-waits :
      (segments : List String) (context : ExecutionContext)
      → is_missing (resolve_segments py segments context) ≡ waits segments context
  unfolding resolve_segments resolve_token_path
  segments-waits [] context = refl
  segments-waits (a ∷ []) context = ground (arith, config-waits [] context)
  segments-waits (a ∷ b ∷ []) context = ground (arith, config-waits (b ∷ []) context)
  segments-waits (a ∷ b ∷ c ∷ []) context = ground (
    arith,
    not_both "config" "tokens" a refl,
    config-waits (b ∷ c ∷ []) context,
    token-waits b c (get context.tokens b),
  )
  segments-waits (a ∷ b ∷ c ∷ d ∷ rest) context = ground (
    arith,
    not_both "config" "tokens" a refl,
    not_both "config" "steps" a refl,
    not_both "tokens" "steps" a refl,
    config-waits (b ∷ c ∷ d ∷ rest) context,
    step-waits b (get context.steps b) c d rest,
  )

-- The resolution of a path says that a predecessor is missing exactly if the path is that of a token's
-- field and no such token is recorded, or that of the response of a step which is recorded without
-- one; it says so of no configuration, of no request, of no step that is not recorded, and of no place
-- in a body.
pub resolve_dot_path-is_missing :
    (py : Python) (path : String) (context : ExecutionContext)
    → is_missing (resolve_dot_path py path context) ≡ waits (split b'.' path) context
unfolding resolve_dot_path
resolve_dot_path-is_missing py path context = segments-waits py (split b'.' path) context
