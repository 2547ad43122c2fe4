-- ===== src/Placeholder.antt =====
-- `resolve_placeholders` and `resolve_in_structure` of conformance/context.py: the templates of a manifest,
-- in which `${path}` stands for what a path of the execution context reads.
pub mod Pieces
pub mod Structure
use Prim.Native.Char.{Char, code}
use Prim.Native.String
use conformance_suite_v.Base.{
  ℕ, String, Bool, true, false, ◌&&◌, ◌||◌, Option, none, some, Result, ok, err, ◌>>=◌, ◌==◌,
  if◌then◌else◌,
}
use conformance_suite_v.Base.Json.{
  Json, null, bool, num, str, arr, obj, Items, nil, cons, Fields, end, field,
}
use conformance_suite_v.Context.{
  ExecutionContext, PlaceholderError, empty_placeholder, unterminated, Resolved, Python,
  resolve_dot_path,
}

-- the two characters of `${`
abbrev pub opens : Char → Char → Bool
opens c d = code c == b'$' && code d == b'{'

-- `"${" in template`
unfoldable pub has_placeholder : String → Bool
has_placeholder String.[] = false
has_placeholder (String.◌∷◌ c String.[]) = false
has_placeholder (String.◌∷◌ c (String.◌∷◌ d s)) = opens c d || has_placeholder (String.◌∷◌ d s)

abbrev starts_closed : String → Bool
starts_closed String.[] = false
starts_closed (String.◌∷◌ c s) = code c == b'}'

-- `"${}" in template`
unfoldable pub has_empty_placeholder : String → Bool
has_empty_placeholder String.[] = false
has_empty_placeholder (String.◌∷◌ c String.[]) = false
has_empty_placeholder (String.◌∷◌ c (String.◌∷◌ d s)) =
    (opens c d && starts_closed s) || has_empty_placeholder (String.◌∷◌ d s)

-- `[^}]*$` with MULTILINE: the end of the text or of a line comes before the next brace
unfoldable pub is_unclosed : String → Bool
is_unclosed String.[] = true
is_unclosed (String.◌∷◌ c s) =
    let rest = is_unclosed s in
    if code c == b'}' then false else if code c == 10 then true else rest

-- `_MALFORMED_PLACEHOLDER_PATTERN.search(template)`
unfoldable pub is_malformed : String → Bool
is_malformed String.[] = false
is_malformed (String.◌∷◌ c String.[]) = false
is_malformed (String.◌∷◌ c (String.◌∷◌ d s)) =
    (opens c d && is_unclosed s) || is_malformed (String.◌∷◌ d s)

abbrev pub before : String → Resolved → Resolved
before text (err error) = err error
before text (ok rest) = ok (String.◌++◌ text rest)

abbrev pub before_char : Char → Resolved → Resolved
before_char c (err error) = err error
before_char c (ok rest) = ok (String.◌∷◌ c rest)

abbrev is_empty : String → Bool
is_empty String.[] = true
is_empty (String.◌∷◌ c s) = false

module _ (resolve : String → Resolved) where
  -- the match ends, and the text after it goes on
  abbrev close : String → Resolved → Resolved
  close name rest =
      if is_empty name then before "${}" rest else resolve name >>= λ value. before value rest

  -- `_PLACEHOLDER_PATTERN.sub`: outside a match, or after `${` and these characters, which are no braces
  unfoldable pub substitute : Option String → String → Resolved
  substitute none String.[] = ok String.[]
  substitute none (String.◌∷◌ c String.[]) = ok (String.◌∷◌ c String.[])
  substitute none (String.◌∷◌ c (String.◌∷◌ d s)) =
      let found = substitute (some String.[]) s in
      let plain = before_char c (substitute none (String.◌∷◌ d s)) in
      if opens c d then found else plain
  substitute (some name) String.[] = ok (String.◌++◌ "${" name)
  substitute (some name) (String.◌∷◌ c s) =
      let closed = close name (substitute none s) in
      let longer = substitute (some (String.◌++◌ name (String.◌∷◌ c String.[]))) s in
      if code c == b'}' then closed else longer

module _ (py : Python) (context : ExecutionContext) where
  -- `_validate_placeholder_syntax`, and the substitution
  unfoldable pub resolve_placeholders : String → Resolved
  resolve_placeholders template =
      let found = substitute (λ path. resolve_dot_path py path context) none template in
      if has_placeholder template
      then if has_empty_placeholder template
        then err empty_placeholder
        else if is_malformed template
        then err unterminated
        else found
      else ok template

  abbrev as_text : Resolved → Result PlaceholderError Json
  as_text (ok text) = ok (str text)
  as_text (err error) = err error

  unfoldable mutual
    pub resolve_in_structure : Json → Result PlaceholderError Json
    resolve_in_structure (str template) = as_text (resolve_placeholders template)
    resolve_in_structure (obj fields) = resolve_fields fields >>= λ fields'. ok (obj fields')
    resolve_in_structure (arr items) = resolve_items items >>= λ items'. ok (arr items')
    resolve_in_structure value = ok value

    pub resolve_fields : Fields → Result PlaceholderError Fields
    resolve_fields end = ok end
    resolve_fields (field key child rest) = do
      child' ← resolve_in_structure child
      rest' ← resolve_fields rest
      ok (field key child' rest')

    pub resolve_items : Items → Result PlaceholderError Items
    resolve_items nil = ok nil
    resolve_items (cons child rest) = do
      child' ← resolve_in_structure child
      rest' ← resolve_items rest
      ok (cons child' rest')
