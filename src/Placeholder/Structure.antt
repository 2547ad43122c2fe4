-- ===== src/Placeholder/Structure.antt =====
-- What `resolve_in_structure` of conformance/context.py keeps of a JSON value.
use conformance_suite_v.Base.{String, ◌≡◌, refl, ap, sym, ◌∙◌, Result, ok, err, ◌>>=◌}
use conformance_suite_v.Base.Json.{
  Json, null, bool, num, str, arr, obj, Items, nil, cons, Fields, end, field,
}
use conformance_suite_v.Context.{ExecutionContext, PlaceholderError, Resolved, Python}
use conformance_suite_v.Placeholder.{
  resolve_placeholders, as_text, resolve_in_structure, resolve_fields, resolve_items,
}

-- the value with every text emptied
mutual
  pub shape : Json → Json
  shape (str text) = str ""
  shape (arr items) = arr (shape_items items)
  shape (obj fields) = obj (shape_fields fields)
  shape value = value

  pub shape_fields : Fields → Fields
  shape_fields end = end
  shape_fields (field key child rest) = field key (shape child) (shape_fields rest)

  pub shape_items : Items → Items
  shape_items nil = nil
  shape_items (cons child rest) = cons (shape child) (shape_items rest)

module _ (py : Python) (context : ExecutionContext) where
  abbrev Keeps : Json → Result PlaceholderError Json → Type 0
  Keeps value (err error) = Unit
  Keeps value (ok value') = shape value' ≡ shape value

  abbrev KeepsFields : Fields → Result PlaceholderError Fields → Type 0
  KeepsFields fields (err error) = Unit
  KeepsFields fields (ok fields') = shape_fields fields' ≡ shape_fields fields

  abbrev KeepsItems : Items → Result PlaceholderError Items → Type 0
  KeepsItems items (err error) = Unit
  KeepsItems items (ok items') = shape_items items' ≡ shape_items items

  as_text-Keeps : (text : String) (r : Resolved) → Keeps (str text) (as_text py context r)
  unfolding shape
  as_text-Keeps text (ok t) = refl
  as_text-Keeps text (err e) = tt

  obj-Keeps :
      (fields : Fields) (r : Result PlaceholderError Fields)
      → KeepsFields fields r
      → Keeps (obj fields) (r >>= λ fields'. ok (obj fields'))
  unfolding shape
  obj-Keeps fields (ok fields') h = ap obj h
  obj-Keeps fields (err e) h = tt

  arr-Keeps :
      (items : Items) (r : Result PlaceholderError Items)
      → KeepsItems items r
      → Keeps (arr items) (r >>= λ items'. ok (arr items'))
  unfolding shape
  arr-Keeps items (ok items') h = ap arr h
  arr-Keeps items (err e) h = tt

  field-Keeps :
      (key : String) (child : Json) (rest : Fields) (c : Result PlaceholderError Json)
      (r : Result PlaceholderError Fields)
      → Keeps child c
      → KeepsFields rest r
      → KeepsFields
          (field key child rest)
          (c >>= λ child'. r >>= λ rest'. ok (field key child' rest'))
  unfolding shape
  field-Keeps key child rest (err e) r h g = tt
  field-Keeps key child rest (ok c) (err e) h g = tt
  field-Keeps key child rest (ok c) (ok r) h g = cc

  cons-Keeps :
      (child : Json) (rest : Items) (c : Result PlaceholderError Json)
      (r : Result PlaceholderError Items)
      → Keeps child c
      → KeepsItems rest r
      → KeepsItems (cons child rest) (c >>= λ child'. r >>= λ rest'. ok (cons child' rest'))
  unfolding shape
  cons-Keeps child rest (err e) r h g = tt
  cons-Keeps child rest (ok c) (err e) h g = tt
  cons-Keeps child rest (ok c) (ok r) h g = cc

  mutual
    unfolding resolve_in_structure shape

    keeps : (value : Json) → Keeps value (resolve_in_structure py context value)
    keeps (str text) = as_text-Keeps text (resolve_placeholders py context text)
    keeps (obj fields) = obj-Keeps fields (resolve_fields py context fields) (keeps_fields fields)
    keeps (arr items) = arr-Keeps items (resolve_items py context items) (keeps_items items)
    keeps null = refl
    keeps (bool b) = refl
    keeps (num n) = refl

    keeps_fields : (fields : Fields) → KeepsFields fields (resolve_fields py context fields)
    keeps_fields end = refl
    keeps_fields (field key child rest) =
        field-Keeps key child rest (resolve_in_structure py context child)
          (resolve_fields py context rest) (keeps child) (keeps_fields rest)

    keeps_items : (items : Items) → KeepsItems items (resolve_items py context items)
    keeps_items nil = refl
    keeps_items (cons child rest) =
        cons-Keeps child rest (resolve_in_structure py context child)
          (resolve_items py context rest) (keeps child) (keeps_items rest)

-- A JSON value whose templates are resolved keeps its shape: its keys in their order, its lists at their
-- lengths, and every value that is no text.
pub shape-resolve_in_structure :
    (py : Python) (context : ExecutionContext) (value value' : Json)
    → resolve_in_structure py context value ≡ ok value'
    → shape value' ≡ shape value
shape-resolve_in_structure py context value value' h =
    go (resolve_in_structure py context value) (keeps py context value) h
  where
    go :
        (r : Result PlaceholderError Json)
        → Keeps py context value r
        → r ≡ ok value'
        → shape value' ≡ shape value
    go (ok found) k e = let same : found ≡ value' = cc in ap shape (sym same) ∙ k
    go (err x) k e = absurd (cc)
