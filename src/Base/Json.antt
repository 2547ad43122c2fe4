-- ===== src/Base/Json.antt =====
-- conformance/json_types.py: the JSON values that the suite decodes, compares and writes. A number
-- is a Python `int`, a sign and a magnitude, or a `float`, by its exact value.
use Prim.Native.Nat.{ℕ}
use Prim.Native.String.{String}
use mathlib.Core.Bool.{Bool, false}
use mathlib.Core.Option.{Option, none, some}
use mathlib.Core.List.{List, [], ◌∷◌}
use mathlib.Core.Path.{◌≡◌, refl, ap}
use native.Mathlib.Omega.{arith}
use text.Mathlib.TextEquality.{eq_iff}
use conformance_suite_v.Base.Tests.{str_eq, if◌then◌else◌}

pub data Number : Type 0 where
  integer : Bool → ℕ → Number
  -- `float.as_integer_ratio`: whether it is negative, the numerator and the denominator
  ratio : Bool → ℕ → ℕ → Number
  infinity : Bool → Number
  nan : Number

mutual
  pub data Json : Type 0 where
    null : Json
    bool : Bool → Json
    num : Number → Json
    str : String → Json
    arr : Items → Json
    obj : Fields → Json

  pub data Items : Type 0 where
    nil : Items
    cons : Json → Items → Items

  pub data Fields : Type 0 where
    end : Fields
    field : String → Json → Fields → Fields

-- `value.get(key)` of an object
unfoldable pub field_of : Fields → String → Option Json
field_of end key = none
field_of (field name value rest) key = if str_eq name key then some value else field_of rest key

-- `value == text`, for a value that may be missing
abbrev pub is_text : String → Option Json → Bool
is_text text (some (str s)) = str_eq s text
is_text text _ = false

-- the entries of an array
unfoldable pub entries : Items → List Json
entries nil = []
entries (cons value rest) = value ∷ entries rest

-- `fields[key] = value`
unfoldable pub set_field : Fields → String → Json → Fields
set_field end key value = field key value end
set_field (field name old rest) key value =
    if str_eq name key then field name value rest else field name old (set_field rest key value)

unfoldable pub items_of : List Json → Items
items_of [] = nil
items_of (value ∷ values) = cons value (items_of values)

pub entries-items_of : (values : List Json) → entries (items_of values) ≡ values
unfolding entries items_of
entries-items_of [] = refl
entries-items_of (value ∷ values) = ap (λ l. value ∷ l) (entries-items_of values)

pub field_of-set_field :
    (fields : Fields) (key other : String) (value : Json)
    → field_of (set_field fields key value) other
      ≡ (if str_eq key other then some value else field_of fields other)
unfolding field_of set_field
field_of-set_field end key other value = refl
field_of-set_field (field name old rest) key other value = ground (
  arith,
  eq_iff key other,
  eq_iff name key,
  eq_iff name other,
  field_of-set_field rest key other value,
)
