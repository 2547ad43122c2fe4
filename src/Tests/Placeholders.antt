-- ===== src/Tests/Placeholders.antt =====
-- The execution context and its placeholders (conformance/context.py) in use.
use Prim.Native.Char.{Char, code}
use conformance_suite_v.Base.{
  ℕ, ◌-◌, ◌≡◌, refl, true, false, ◌&&◌, Option, none, some, List, [], ◌∷◌, ok, err, leb,
  if◌then◌else◌, all,
}
use conformance_suite_v.Base.Json.{
  Json, num, str, arr, obj, integer, nil, cons, Fields, end, field, field_of, entries,
}
use conformance_suite_v.Base.Dict.{get, put}
use conformance_suite_v.Base.Split.{decimal, split, is_free}
use conformance_suite_v.Context.{
  ExecutionContext, RequestRecord, ResponseRecord, Python, record_step, record_token,
  resolve_body_path, resolve_dot_path, resolve_token_path, resolve_response_path,
  resolve_list_segment, digits_from, unterminated,
}
use conformance_suite_v.Context.Recorded.{token_path, recorded_path, resolve_dot_path-recorded}
use conformance_suite_v.Context.Missing.{is_missing, waits, resolve_dot_path-is_missing}
use conformance_suite_v.Placeholder.{
  substitute, has_placeholder, has_empty_placeholder, is_unclosed, is_malformed,
  resolve_placeholders, resolve_in_structure,
}
use conformance_suite_v.Placeholder.Pieces.{
  Piece, literal, path, print, meaning, resolve_placeholders-print,
}
use conformance_suite_v.Placeholder.Structure.{shape, shape-resolve_in_structure}

abbrev ascii_digit : Char → Option ℕ
ascii_digit c = if leb 48 (code c) && leb (code c) 57 then some (code c - 48) else none

abbrev python : Python
python = record { float_text = λ n. "0.5"; digit_of = ascii_digit }

abbrev empty_context : ExecutionContext
empty_context = record { steps = []; tokens = []; config = none }

abbrev request : RequestRecord
request = record { method = "GET"; url = "https://bank.example/accounts" }

abbrev account : Fields
account = field "AccountId" (str "22289") end

abbrev response : ResponseRecord
response = record {
  status_code = 200;
  headers = [];
  body = field "Account" (arr (cons (obj account) nil)) end;
}

abbrev recorded : ExecutionContext
recorded =
    record_token (record_step empty_context "accounts" request (some response)) "client" "secret"

body_value :
    resolve_dot_path python "steps.accounts.response.body.Account.0.AccountId" recorded ≡ ok "22289"
unfolding resolve_dot_path split get record_token record_step put resolve_response_path
    resolve_body_path field_of resolve_list_segment digits_from entries
body_value = refl

resolve_dot_path-recorded_example :
    (resolve_dot_path python (token_path "client") (record_token recorded "client" "newer")
      ≡ ok "newer")
    × (resolve_dot_path python "config.discoveryUrl" (record_token recorded "client" "newer")
        ≡ resolve_dot_path python "config.discoveryUrl" recorded)
    × (resolve_dot_path python
          (recorded_path "client" "request" ("method" ∷ []))
          (record_step recorded "client" request none)
        ≡ ok request.method)
    × (resolve_dot_path python
          (recorded_path "client" "request" ("url" ∷ []))
          (record_step recorded "client" request none)
        ≡ ok request.url)
    × (resolve_dot_path python
          (recorded_path "client" "response" ("status_code" ∷ []))
          (record_step recorded "client" request (some response))
        ≡ ok (decimal response.status_code))
    × (resolve_dot_path python
          (recorded_path "client" "response" ("body" ∷ "Account" ∷ "0" ∷ []))
          (record_step recorded "client" request (some response))
        ≡ resolve_body_path python (obj response.body) ("Account" ∷ "0" ∷ []))
    × (resolve_dot_path python "steps.accounts.request.url"
          (record_step recorded "client" request none)
        ≡ resolve_dot_path python "steps.accounts.request.url" recorded)
unfolding is_free all split
resolve_dot_path-recorded_example =
    resolve_dot_path-recorded python recorded "client" "newer" request response none
      ("Account" ∷ "0" ∷ []) "config.discoveryUrl" "steps.accounts.request.url" refl refl refl refl

abbrev unanswered : ExecutionContext
unanswered = record_step recorded "consent" request none

resolve_dot_path-is_missing_example :
    is_missing (resolve_dot_path python "steps.consent.response.status_code" unanswered)
    ≡ waits (split b'.' "steps.consent.response.status_code") unanswered
resolve_dot_path-is_missing_example =
    resolve_dot_path-is_missing python "steps.consent.response.status_code" unanswered

consent_waits : waits (split b'.' "steps.consent.response.status_code") unanswered ≡ true
unfolding split record_step record_token get put
consent_waits = refl

abbrev bearer : List Piece
bearer =
    literal "Bearer "
    ∷ path "tokens.client.access_token"
    ∷ literal " for "
    ∷ path "tokens.other.access_token"
    ∷ []

bearer_text : print bearer ≡ "Bearer ${tokens.client.access_token} for ${tokens.other.access_token}"
unfolding print
bearer_text = refl

resolve_placeholders-print_example :
    resolve_placeholders python recorded (print bearer)
    ≡ meaning (λ name. resolve_dot_path python name recorded) bearer
unfolding all is_free
resolve_placeholders-print_example = resolve_placeholders-print python recorded bearer refl

line_break :
    resolve_placeholders python recorded "${tokens.client\n.access_token}" ≡ err unterminated
unfolding resolve_placeholders has_placeholder has_empty_placeholder is_malformed is_unclosed
line_break = refl

abbrev template : Json
template = obj (
    field "Authorization" (str "Bearer ${tokens.client.access_token}")
      (field "Retries" (num (integer false 3)) end))

resolved :
    resolve_in_structure python recorded template
    ≡ ok (
        obj (
          field "Authorization"
            (str "Bearer secret")
            (field "Retries" (num (integer false 3)) end)))
unfolding resolve_in_structure resolve_placeholders has_placeholder has_empty_placeholder
    is_malformed is_unclosed substitute resolve_dot_path split resolve_token_path get record_token
    put record_step
resolved = refl

shape-resolve_in_structure_example :
    shape (
      obj
        (field "Authorization" (str "Bearer secret") (field "Retries" (num (integer false 3)) end)))
    ≡ shape template
shape-resolve_in_structure_example =
    shape-resolve_in_structure python recorded template
      (obj
        (field "Authorization" (str "Bearer secret") (field "Retries" (num (integer false 3)) end)))
      resolved
