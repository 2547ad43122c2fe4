-- ===== src/Masking.antt =====
-- conformance/masking.py: credentials are taken out of the evidence that a report contains.
pub mod Secrets
pub mod Headers
use conformance_suite_v.Base.{String, Bool, true, false, List, [], ◌∷◌, map, if◌then◌else◌, elem}
use conformance_suite_v.Base.Json.{
  Json, null, bool, num, str, arr, obj, Items, nil, cons, Fields, end, field,
}
use conformance_suite_v.Base.Text.{lower}
use conformance_suite_v.Base.Dict.{Dict}

abbrev pub masked_value : String
masked_value = "***"

abbrev pub sensitive_json_keys : List String
sensitive_json_keys =
    "access_token" ∷ "refresh_token" ∷ "id_token" ∷ "client_secret" ∷ "code" ∷ "client_assertion"
    ∷ "assertion" ∷ "authorization" ∷ "request" ∷ "request_object" ∷ "software_statement"
    ∷ "softwarestatementassertion" ∷ "signedregistrationjose" ∷ "registration_access_token"
    ∷ "registrationaccesstoken" ∷ "clientcredentialsaccesstoken" ∷ "clientassertions"
    ∷ "tokenresponse" ∷ "password" ∷ "private_key" ∷ "privatekeys" ∷ []

abbrev pub sensitive_header_names : List String
sensitive_header_names =
    "authorization" ∷ "proxy-authorization" ∷ "cookie" ∷ "set-cookie" ∷ "x-api-key"
    ∷ "x-fapi-customer-ip-address" ∷ "x-fapi-financial-id" ∷ "x-jws-signature" ∷ []

-- `key.lower() in names`
unfoldable pub is_sensitive : List String → String → Bool
is_sensitive names key = elem (lower key) names

unfoldable mutual
  pub mask_json_value : Json → Json
  mask_json_value null = null
  mask_json_value (bool b) = bool b
  mask_json_value (num n) = num n
  mask_json_value (str s) = str s
  mask_json_value (arr items) = arr (mask_items items)
  mask_json_value (obj fields) = obj (mask_object fields)

  pub mask_items : Items → Items
  mask_items nil = nil
  mask_items (cons value rest) = cons (mask_json_value value) (mask_items rest)

  pub mask_object : Fields → Fields
  mask_object end = end
  mask_object (field key value rest) =
      let deep = mask_json_value value in
      field key (if is_sensitive sensitive_json_keys key then str masked_value else deep)
        (mask_object rest)

abbrev pub mask_pair : List String → String × String → String × String
mask_pair names (name, value) = (name, if is_sensitive names name then masked_value else value)

-- `{name: MASKED_VALUE if name.lower() in names else value for name, value in pairs.items()}`
unfoldable pub mask_pairs : List String → Dict String → Dict String
mask_pairs names pairs = map (mask_pair names) pairs

unfoldable pub mask_headers : Dict String → Dict String
unfolding mask_pairs
mask_headers headers = mask_pairs sensitive_header_names headers

unfoldable pub mask_form_fields : Dict String → Dict String
unfolding mask_pairs
mask_form_fields fields = mask_pairs sensitive_json_keys fields
