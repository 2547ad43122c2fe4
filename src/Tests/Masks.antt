-- ===== src/Tests/Masks.antt =====
-- Masking (conformance/masking.py) on small values.
use conformance_suite_v.Base.{String, ◌≡◌, refl, true, [], ◌∷◌, elem}
use conformance_suite_v.Base.Json.{Json, str, arr, obj, nil, cons, end, field}
use conformance_suite_v.Base.Text.{lower}
use conformance_suite_v.Base.Dict.{Dict, get, keys}
use conformance_suite_v.Masking.{
  mask_json_value, mask_headers, mask_form_fields, is_sensitive, sensitive_header_names,
  sensitive_json_keys, mask_pairs,
}
use conformance_suite_v.Masking.Secrets.{
  is_masked, SameOpen, mask_json_value-is_masked, mask_json_value-SameOpen,
}
use conformance_suite_v.Masking.Headers.{hidden, get-masked}

abbrev token_answer : String → Json
token_answer token = obj (
    field "Access_Token" (str token) (
      field "nested" (arr (cons (obj (field "code" (str token) end)) nil))
        (field "scope" (str "accounts") end)))

masked_answer : mask_json_value (token_answer "s3cret") ≡ token_answer "***"
unfolding mask_json_value is_sensitive elem lower
masked_answer = refl

-- the Kelvin sign is folded to `k`
kelvin_is_sensitive : is_sensitive sensitive_json_keys "ACCESS_TOKEN" ≡ true
unfolding is_sensitive elem lower
kelvin_is_sensitive = refl

abbrev headers : Dict String
headers = ("Accept", "application/json") ∷ ("Authorization", "Bearer x") ∷ []

masked_headers :
    mask_headers headers ≡ ("Accept", "application/json") ∷ ("Authorization", "***") ∷ []
unfolding mask_headers mask_pairs is_sensitive elem lower
masked_headers = refl

mask_json_value-is_masked_example : is_masked (mask_json_value (token_answer "s3cret")) ≡ true
mask_json_value-is_masked_example = mask_json_value-is_masked (token_answer "s3cret")

mask_json_value-SameOpen_example :
    SameOpen (token_answer "s3cret") (mask_json_value (token_answer "s3cret"))
mask_json_value-SameOpen_example = mask_json_value-SameOpen (token_answer "s3cret")

get-masked_case :
    (keys (mask_headers headers) ≡ keys headers)
    × (get (mask_headers headers) "Accept"
        ≡ hidden (is_sensitive sensitive_header_names "Accept") (get headers "Accept"))
    × (keys (mask_form_fields headers) ≡ keys headers)
    × (get (mask_form_fields headers) "Accept"
        ≡ hidden (is_sensitive sensitive_json_keys "Accept") (get headers "Accept"))
get-masked_case = get-masked headers "Accept"
