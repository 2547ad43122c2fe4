-- ===== src/Masking/Headers.antt =====
-- What masking header maps and form fields removes, and what it keeps.
use conformance_suite_v.Base.{
  String, ◌≡◌, refl, Bool, Option, none, some, List, [], ◌∷◌, eq_iff, str_eq, if◌then◌else◌,
  Bool-cases, inl, inr,
}
use conformance_suite_v.Base.Dict.{Dict, get, keys}
use conformance_suite_v.Masking.{
  masked_value, sensitive_json_keys, sensitive_header_names, is_sensitive, mask_pairs, mask_headers,
  mask_form_fields,
}

-- what a reader finds under a name
abbrev pub hidden : Bool → Option String → Option String
hidden b none = none
hidden b (some value) = some (if b then masked_value else value)

get-mask_pairs :
    (names : List String) (d : Dict String) (k : String)
    → get (mask_pairs names d) k ≡ hidden (is_sensitive names k) (get d k)
unfolding mask_pairs get
get-mask_pairs names [] k = refl
get-mask_pairs names ((j, v) ∷ d) k = elim (Bool-cases (str_eq j k)) [
  | inl e ↦ rw e (rw ((eq_iff j k).0 e) refl)
  | inr n ↦ rw n (get-mask_pairs names d k)
]

keys-mask_pairs : (names : List String) (d : Dict String) → keys (mask_pairs names d) ≡ keys d
unfolding mask_pairs keys
keys-mask_pairs names [] = refl
keys-mask_pairs names ((j, v) ∷ d) = rw (keys-mask_pairs names d) refl

-- Masked headers and masked form fields have the names that they had, in their order; a name that
-- is sensitive whatever its case gives the mask, and any other name gives the value that it had.
pub get-masked :
    (d : Dict String) (k : String)
    → (keys (mask_headers d) ≡ keys d)
      × (get (mask_headers d) k ≡ hidden (is_sensitive sensitive_header_names k) (get d k))
      × (keys (mask_form_fields d) ≡ keys d)
      × (get (mask_form_fields d) k ≡ hidden (is_sensitive sensitive_json_keys k) (get d k))
unfolding mask_headers mask_form_fields
get-masked d k = (
  keys-mask_pairs sensitive_header_names d,
  get-mask_pairs sensitive_header_names d k,
  keys-mask_pairs sensitive_json_keys d,
  get-mask_pairs sensitive_json_keys d k,
)
