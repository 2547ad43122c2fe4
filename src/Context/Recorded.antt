-- ===== src/Context/Recorded.antt =====
-- What was recorded is what a later placeholder reads (conformance/context.py).
use Prim.Native.Char.{Char}
use conformance_suite_v.Base.{
  String, ◌≡◌, refl, ap, ◌∙◌, Bool, true, some, List, [], ◌∷◌, ok, arith, str_eq, all, ◌&&◌, false,
  Option, Bool-cases, inl, inr, eq_refl,
}
use conformance_suite_v.Base.Json.{obj}
use conformance_suite_v.Base.Dict.{get-put}
use conformance_suite_v.Base.Split.{split, decimal, join, is_free, split-join}
use conformance_suite_v.Context.{
  ExecutionContext, RequestRecord, ResponseRecord, Python, record_step, record_token, direction_of,
  resolve_request_path, resolve_token_path, resolve_body_path, resolve_response_path,
  resolve_segments, resolve_config_path, resolve_dot_path,
}

abbrev dot : Char
dot = "."

-- `tokens.<token_id>.access_token`, and `steps.<step_id>.<direction>.<field>`
abbrev pub token_path : String → String
token_path token_id = join dot ("tokens" ∷ token_id ∷ "access_token" ∷ [])

abbrev pub step_segments : String → String → List String → List String
step_segments step_id direction fields = "steps" ∷ step_id ∷ direction ∷ fields

abbrev pub recorded_path : String → String → List String → String
recorded_path step_id direction fields = join dot (step_segments step_id direction fields)

-- no dot in the name
abbrev pub is_segment : String → Bool
is_segment = is_free b'.'

-- the path reads this token, or this step
abbrev pub reads_token : String → List String → Bool
reads_token token_id (first ∷ i ∷ rest) = str_eq first "tokens" && str_eq token_id i
reads_token token_id _ = false

abbrev pub reads_step : String → List String → Bool
reads_step step_id (first ∷ i ∷ rest) = str_eq first "steps" && str_eq step_id i
reads_step step_id _ = false

response-status :
    (py : Python) (response : ResponseRecord)
    → resolve_response_path py response "status_code" [] ≡ ok (decimal response.status_code)
unfolding resolve_response_path
response-status py response = refl

response-body :
    (py : Python) (response : ResponseRecord) (fields : List String)
    → resolve_response_path py response "body" fields
      ≡ resolve_body_path py (obj response.body) fields
unfolding resolve_response_path
response-body py response [] = refl
response-body py response (s ∷ fields) = refl

module _ (py : Python) (c : ExecutionContext) (k : String) where
  -- a path that does not read the token reads what it read before
  token-frame :
      (access_token : String) (segments : List String)
      → reads_token k segments ≡ false
      → resolve_segments py segments (record_token c k access_token)
        ≡ resolve_segments py segments c
  unfolding resolve_segments record_token resolve_config_path resolve_token_path
  token-frame access_token [] h = refl
  token-frame access_token (first ∷ []) h = refl
  token-frame access_token (first ∷ i ∷ []) h = refl
  token-frame access_token (first ∷ i ∷ field ∷ []) h = elim (Bool-cases (str_eq first "tokens")) [
    | inl e ↦
        let other : str_eq k i ≡ false = ground arith in
        rw (get-put c.tokens k i (record { access_token = access_token }), other) refl
    | inr e ↦ rw e refl
  ]
  token-frame access_token (first ∷ i ∷ field ∷ more ∷ rest) h = refl

  -- and so does one that does not read the step
  step-frame :
      (request : RequestRecord) (response : Option ResponseRecord) (segments : List String)
      → reads_step k segments ≡ false
      → resolve_segments py segments (record_step c k request response)
        ≡ resolve_segments py segments c
  unfolding resolve_segments record_step resolve_config_path resolve_token_path
  step-frame request response [] h = refl
  step-frame request response (first ∷ []) h = refl
  step-frame request response (first ∷ i ∷ []) h = refl
  step-frame request response (first ∷ i ∷ field ∷ []) h = refl
  step-frame request response (first ∷ i ∷ field ∷ more ∷ rest) h =
      elim (Bool-cases (str_eq first "steps")) [
        | inl e ↦
            let other : str_eq k i ≡ false = ground arith in
            rw (get-put c.steps k i (record { request = request; response = response }), other) refl
        | inr e ↦ rw e refl
      ]

  module _ (free : is_segment k ≡ true) where
    token-recorded :
        (access_token : String)
        → resolve_dot_path py (token_path k) (record_token c k access_token) ≡ ok access_token
    unfolding resolve_dot_path resolve_segments resolve_token_path record_token all is_free
    token-recorded access_token =
        ap (λ l. resolve_segments py l (record_token c k access_token))
          (split-join b'.' dot "tokens" (k ∷ "access_token" ∷ []) refl refl (rw free refl))
        ∙ rw (get-put c.tokens k k (record { access_token = access_token }), eq_refl k) refl

    step-recorded :
        (request : RequestRecord) (response : Option ResponseRecord) (direction field : String)
        (fields : List String)
        → all is_segment (direction ∷ field ∷ fields) ≡ true
        → resolve_dot_path py
            (recorded_path k direction (field ∷ fields))
            (record_step c k request response)
          ≡ direction_of py k
              (record { request = request; response = response })
              direction
              field
              fields
    unfolding resolve_dot_path resolve_segments record_step all is_free
    step-recorded request response direction field fields h =
        ap (λ l. resolve_segments py l (record_step c k request response))
          (split-join b'.' dot "steps" (k ∷ direction ∷ field ∷ fields) refl refl
            (rw (free, h) refl))
        ∙ rw (get-put c.steps k k (record { request = request; response = response }), eq_refl k)
            refl

-- Let the identifier `k`, and the segments of a path into a body, hold no dot. After a token is recorded
-- under `k`, the path of its text reads it, and every path, of any kind, that does not read this token
-- reads what it read before. After a request is recorded under `k` with a response or without one, the
-- paths of the step read the method and the address of the request, and the status and the body of the
-- response if there is one; and every path that does not read this step reads what it read before.
pub resolve_dot_path-recorded :
    (py : Python) (c : ExecutionContext) (k access_token : String) (request : RequestRecord)
    (response : ResponseRecord) (answer : Option ResponseRecord) (fields : List String)
    (p q : String)
    → is_segment k ≡ true
    → all is_segment fields ≡ true
    → reads_token k (split b'.' p) ≡ false
    → reads_step k (split b'.' q) ≡ false
    → (resolve_dot_path py (token_path k) (record_token c k access_token) ≡ ok access_token)
      × (resolve_dot_path py p (record_token c k access_token) ≡ resolve_dot_path py p c)
      × (resolve_dot_path py
            (recorded_path k "request" ("method" ∷ []))
            (record_step c k request answer)
          ≡ ok request.method)
      × (resolve_dot_path py
            (recorded_path k "request" ("url" ∷ []))
            (record_step c k request answer)
          ≡ ok request.url)
      × (resolve_dot_path py
            (recorded_path k "response" ("status_code" ∷ []))
            (record_step c k request (some response))
          ≡ ok (decimal response.status_code))
      × (resolve_dot_path py
            (recorded_path k "response" ("body" ∷ fields))
            (record_step c k request (some response))
          ≡ resolve_body_path py (obj response.body) fields)
      × (resolve_dot_path py q (record_step c k request answer) ≡ resolve_dot_path py q c)
unfolding resolve_dot_path resolve_request_path all is_free
resolve_dot_path-recorded py c k access_token request response answer fields p q free h other_p
      other_q =
    let method = step-recorded py c k free request answer "request" "method" [] refl in
    let url = step-recorded py c k free request answer "request" "url" [] refl in
    let status =
      step-recorded py c k free request (some response) "response" "status_code" [] refl in
    let body = step-recorded py c k free request (some response) "response" "body" fields h in
    (
      token-recorded py c k free access_token,
      token-frame py c k access_token (split b'.' p) other_p,
      method,
      url,
      status ∙ response-status py response,
      body ∙ response-body py response fields,
      step-frame py c k request answer (split b'.' q) other_q,
    )
