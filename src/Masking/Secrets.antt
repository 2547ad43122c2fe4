-- ===== src/Masking/Secrets.antt =====
-- What masking a JSON value removes, and what it keeps.
use conformance_suite_v.Base.{◌≡◌, refl, Bool, true, false, ◌&&◌, if◌then◌else◌, ap, str_eq}
use conformance_suite_v.Base.Json.{
  Json, null, bool, num, str, arr, obj, Items, nil, cons, Fields, end, field,
}
use conformance_suite_v.Masking.{
  masked_value, sensitive_json_keys, is_sensitive, mask_json_value, mask_items, mask_object,
}

abbrev pub is_mask : Json → Bool
is_mask (str s) = str_eq s masked_value
is_mask _ = false

-- each field with a sensitive name, at any depth, holds the mask
unfoldable mutual
  pub is_masked : Json → Bool
  is_masked (arr items) = is_masked_items items
  is_masked (obj fields) = is_masked_fields fields
  is_masked _ = true

  pub is_masked_items : Items → Bool
  is_masked_items nil = true
  is_masked_items (cons value rest) = is_masked value && is_masked_items rest

  pub is_masked_fields : Fields → Bool
  is_masked_fields end = true
  is_masked_fields (field key value rest) =
      let deep = is_masked value in
      (if is_sensitive sensitive_json_keys key then is_mask value else deep)
      && is_masked_fields rest

abbrev pub Unless : Bool → Type 0 → Type 0
Unless true P = Unit
Unless false P = P

-- two values that differ at most in what the fields with sensitive names hold
unfoldable mutual
  pub SameOpen : Json → Json → Type 0
  SameOpen null null = Unit
  SameOpen (bool a) (bool b) = a ≡ b
  SameOpen (num a) (num b) = a ≡ b
  SameOpen (str a) (str b) = a ≡ b
  SameOpen (arr a) (arr b) = SameOpenItems a b
  SameOpen (obj a) (obj b) = SameOpenFields a b
  SameOpen _ _ = ⊥

  pub SameOpenItems : Items → Items → Type 0
  SameOpenItems nil nil = Unit
  SameOpenItems (cons v a) (cons w b) = SameOpen v w × SameOpenItems a b
  SameOpenItems _ _ = ⊥

  pub SameOpenFields : Fields → Fields → Type 0
  SameOpenFields end end = Unit
  SameOpenFields (field j v a) (field k w b) =
      (j ≡ k) × Unless (is_sensitive sensitive_json_keys j) (SameOpen v w) × SameOpenFields a b
  SameOpenFields _ _ = ⊥

masked_field :
    (b : Bool) (v : Json)
    → is_masked v ≡ true
    → (if b
        then is_mask (if b then str masked_value else v)
        else is_masked (if b then str masked_value else v))
      ≡ true
masked_field true v h = refl
masked_field false v h = h

mutual
  unfolding mask_json_value is_masked

  masks_value : (v : Json) → is_masked (mask_json_value v) ≡ true
  masks_value null = refl
  masks_value (bool b) = refl
  masks_value (num n) = refl
  masks_value (str s) = refl
  masks_value (arr items) = masks_items items
  masks_value (obj fields) = masks_fields fields

  masks_items : (items : Items) → is_masked_items (mask_items items) ≡ true
  masks_items nil = refl
  masks_items (cons v rest) = rw (masks_value v, masks_items rest) refl

  masks_fields : (fields : Fields) → is_masked_fields (mask_object fields) ≡ true
  masks_fields end = refl
  masks_fields (field k v rest) =
      rw
        (
          masks_fields rest,
          masked_field (is_sensitive sensitive_json_keys k) (mask_json_value v) (masks_value v),
        )
        refl

-- In a value that was masked, each field with a sensitive name, at any depth, holds the mask.
pub mask_json_value-is_masked : (v : Json) → is_masked (mask_json_value v) ≡ true
mask_json_value-is_masked v = masks_value v

open_field : (b : Bool) (v w m : Json) → SameOpen v w → Unless b (SameOpen v (if b then m else w))
open_field true v w m h = tt
open_field false v w m h = h

mutual
  unfolding mask_json_value SameOpen

  keeps_value : (v : Json) → SameOpen v (mask_json_value v)
  keeps_value null = tt
  keeps_value (bool b) = refl
  keeps_value (num n) = refl
  keeps_value (str s) = refl
  keeps_value (arr items) = keeps_items items
  keeps_value (obj fields) = keeps_fields fields

  keeps_items : (items : Items) → SameOpenItems items (mask_items items)
  keeps_items nil = tt
  keeps_items (cons v rest) = (keeps_value v, keeps_items rest)

  keeps_fields : (fields : Fields) → SameOpenFields fields (mask_object fields)
  keeps_fields end = tt
  keeps_fields (field k v rest) = (
    refl,
    open_field (is_sensitive sensitive_json_keys k) v (mask_json_value v) (str masked_value)
        (keeps_value v),
    keeps_fields rest,
  )

-- Masking changes nothing but what the fields with sensitive names hold.
pub mask_json_value-SameOpen : (v : Json) → SameOpen v (mask_json_value v)
mask_json_value-SameOpen v = keeps_value v

hidden_field :
    (b : Bool) {P : Type 0} (m v w : Json)
    → Unless b P
    → (P → v ≡ w)
    → (if b then m else v) ≡ (if b then m else w)
hidden_field true m v w h f = refl
hidden_field false m v w h f = f h

mutual
  unfolding mask_json_value SameOpen

  hides_value : (v w : Json) → SameOpen v w → mask_json_value v ≡ mask_json_value w
  hides_value null null h = refl
  hides_value (bool a) (bool b) h = ap bool h
  hides_value (num a) (num b) h = ap num h
  hides_value (str a) (str b) h = ap str h
  hides_value (arr a) (arr b) h = ap arr (hides_items a b h)
  hides_value (obj a) (obj b) h = ap obj (hides_fields a b h)
  hides_value _ _ h = absurd h

  hides_items : (a b : Items) → SameOpenItems a b → mask_items a ≡ mask_items b
  hides_items nil nil h = refl
  hides_items (cons v a) (cons w b) h = rw (hides_value v w h.0, hides_items a b h.1) refl
  hides_items _ _ h = absurd h

  hides_fields : (a b : Fields) → SameOpenFields a b → mask_object a ≡ mask_object b
  hides_fields end end h = refl
  hides_fields (field j v a) (field k w b) (e, outside, rest) =
      rw
        (
          ← e,
          hides_fields a b rest,
          hidden_field (is_sensitive sensitive_json_keys j) (str masked_value) (mask_json_value v)
              (mask_json_value w) outside (λ g. hides_value v w g),
        )
        refl
  hides_fields _ _ h = absurd h
