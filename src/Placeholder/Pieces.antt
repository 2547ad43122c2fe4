-- ===== src/Placeholder/Pieces.antt =====
-- A template that was put together from literal texts and paths is resolved piece by piece
-- (conformance/context.py).
use Prim.Native.Char.{Char, code}
use Prim.Native.String
use text.Mathlib.TextLemmas.{nil-append, cons-append, append-nil, append_assoc}
use conformance_suite_v.Base.{
  String, ◌≡◌, refl, ap, sym, ◌∙◌, Bool, true, false, not, ◌&&◌, none, some, List, [], ◌∷◌, ok, err,
  ◌>>=◌, ◌==◌, arith, all, Bool-cases, inl, inr,
}
use conformance_suite_v.Base.Split.{is_free}
use conformance_suite_v.Context.{ExecutionContext, Resolved, Python, resolve_dot_path}
use conformance_suite_v.Placeholder.{
  has_placeholder, starts_closed, has_empty_placeholder, is_unclosed, is_malformed, before,
  before_char, is_empty, close, substitute, resolve_placeholders,
}

pub data Piece : Type 0 where
  literal : String → Piece
  path : String → Piece

-- the text of a template
unfoldable pub print : List Piece → String
print [] = String.[]
print (literal text ∷ pieces) = String.◌++◌ text (print pieces)
print (path name ∷ pieces) =
    String.◌∷◌ "$" (String.◌∷◌ "{" (String.◌++◌ name (String.◌∷◌ "}" (print pieces))))

-- what it stands for: each path is resolved, in order, and the first that cannot be is the error
unfoldable pub meaning : (String → Resolved) → List Piece → Resolved
meaning resolve [] = ok String.[]
meaning resolve (literal text ∷ pieces) = before text (meaning resolve pieces)
meaning resolve (path name ∷ pieces) =
    resolve name >>= λ value. before value (meaning resolve pieces)

-- a literal holds no dollar sign; a path is not empty and holds no dollar sign, brace or line break
abbrev pub is_path : String → Bool
is_path name = not (is_empty name) && (is_free b'$' name && (is_free b'}' name && is_free 10 name))

abbrev pub is_piece : Piece → Bool
is_piece (literal text) = is_free b'$' text
is_piece (path name) = is_path name

-- a character that is no dollar sign begins no placeholder
module _ (c : Char) (plain : code c == b'$' ≡ false) where
  has_placeholder-cons : (t : String) → has_placeholder (String.◌∷◌ c t) ≡ has_placeholder t
  unfolding has_placeholder
  has_placeholder-cons String.[] = refl
  has_placeholder-cons (String.◌∷◌ d s) = ground arith

  has_empty-cons : (t : String) → has_empty_placeholder (String.◌∷◌ c t) ≡ has_empty_placeholder t
  unfolding has_empty_placeholder
  has_empty-cons String.[] = refl
  has_empty-cons (String.◌∷◌ d s) = ground arith

  is_malformed-cons : (t : String) → is_malformed (String.◌∷◌ c t) ≡ is_malformed t
  unfolding is_malformed
  is_malformed-cons String.[] = refl
  is_malformed-cons (String.◌∷◌ d s) = ground arith

  substitute-cons :
      (resolve : String → Resolved) (t : String)
      → substitute resolve none (String.◌∷◌ c t) ≡ before_char c (substitute resolve none t)
  unfolding substitute
  substitute-cons resolve String.[] = refl
  substitute-cons resolve (String.◌∷◌ d s) = ground arith

has_empty-append :
    (s t : String)
    → is_free b'$' s ≡ true
    → has_empty_placeholder (String.◌++◌ s t) ≡ has_empty_placeholder t
unfolding is_free
has_empty-append String.[] t h = rw nil-append refl
has_empty-append (String.◌∷◌ c s) t h =
    rw cons-append
      (has_empty-cons c (ground arith) (String.◌++◌ s t) ∙ has_empty-append s t (ground arith))

is_malformed-append :
    (s t : String) → is_free b'$' s ≡ true → is_malformed (String.◌++◌ s t) ≡ is_malformed t
unfolding is_free
is_malformed-append String.[] t h = rw nil-append refl
is_malformed-append (String.◌∷◌ c s) t h =
    rw cons-append (
      is_malformed-cons c (ground arith) (String.◌++◌ s t) ∙ is_malformed-append s t (ground arith))

before-before_char :
    (c : Char) (s : String) (r : Resolved) → before_char c (before s r) ≡ before (String.◌∷◌ c s) r
before-before_char c s (ok t) = rw cons-append refl
before-before_char c s (err e) = refl

before_nothing : (r : Resolved) → before String.[] r ≡ r
before_nothing (ok t) = rw nil-append refl
before_nothing (err e) = refl

is_unclosed-append :
    (s t : String)
    → is_free b'}' s ≡ true
    → is_free 10 s ≡ true
    → is_unclosed (String.◌++◌ s (String.◌∷◌ "}" t)) ≡ false
unfolding is_free is_unclosed
is_unclosed-append String.[] t h g = rw nil-append refl
is_unclosed-append (String.◌∷◌ c s) t h g = rw cons-append (ground (arith, is_unclosed-append s t))

starts_closed-append :
    (s t : String)
    → is_empty s ≡ false
    → is_free b'}' s ≡ true
    → starts_closed (String.◌++◌ s t) ≡ false
unfolding is_free
starts_closed-append String.[] t h g = absurd (cc)
starts_closed-append (String.◌∷◌ c s) t h g = rw cons-append (ground arith)

module _ (resolve : String → Resolved) where
  substitute-append :
      (s t : String)
      → is_free b'$' s ≡ true
      → substitute resolve none (String.◌++◌ s t) ≡ before s (substitute resolve none t)
  unfolding is_free
  substitute-append String.[] t h = rw nil-append (sym (before_nothing (substitute resolve none t)))
  substitute-append (String.◌∷◌ c s) t h = rw cons-append (
      substitute-cons c (ground arith) resolve (String.◌++◌ s t)
      ∙ ap (before_char c) (substitute-append s t (ground arith))
      ∙ before-before_char c s (substitute resolve none t))

  substitute-name :
      (name s t : String)
      → is_free b'}' s ≡ true
      → substitute resolve (some name) (String.◌++◌ s (String.◌∷◌ "}" t))
        ≡ close resolve (String.◌++◌ name s) (substitute resolve none t)
  unfolding is_free substitute
  substitute-name name String.[] t h = rw (nil-append, append-nil) refl
  substitute-name name (String.◌∷◌ c s) t h =
      let next = substitute-name (String.◌++◌ name (String.◌∷◌ c String.[])) s t (ground arith) in
      let joined : String.◌++◌ (String.◌++◌ name (String.◌∷◌ c String.[])) s
          ≡ String.◌++◌ name (String.◌∷◌ c s) =
        append_assoc name (String.◌∷◌ c String.[]) s ∙ rw (cons-append, nil-append) refl in
      rw cons-append (ground (arith, next, joined))

abbrev after_name : String → String → String
after_name name t = String.◌++◌ name (String.◌∷◌ "}" t)

-- a path in braces neither is empty nor lacks its end, so the checks go on after it
has_empty-path :
    (name t : String)
    → is_path name ≡ true
    → has_empty_placeholder (String.◌∷◌ "$" (String.◌∷◌ "{" (after_name name t)))
      ≡ has_empty_placeholder t
unfolding has_empty_placeholder
has_empty-path name t h =
    let rest =
      has_empty-cons "{" refl (after_name name t)
      ∙ has_empty-append name (String.◌∷◌ "}" t) (ground arith)
      ∙ has_empty-cons "}" refl t in
    ground (arith, rest, starts_closed-append name (String.◌∷◌ "}" t))

is_malformed-path :
    (name t : String)
    → is_path name ≡ true
    → is_malformed (String.◌∷◌ "$" (String.◌∷◌ "{" (after_name name t))) ≡ is_malformed t
unfolding is_malformed
is_malformed-path name t h =
    let rest =
      is_malformed-cons "{" refl (after_name name t)
      ∙ is_malformed-append name (String.◌∷◌ "}" t) (ground arith)
      ∙ is_malformed-cons "}" refl t in
    ground (arith, rest, is_unclosed-append name t)

has_empty-print :
    (ps : List Piece) → all is_piece ps ≡ true → has_empty_placeholder (print ps) ≡ false
unfolding print all
has_empty-print [] h = unfold has_empty_placeholder in refl
has_empty-print (literal s ∷ ps) h =
    has_empty-append s (print ps) (ground arith) ∙ has_empty-print ps (ground arith)
has_empty-print (path name ∷ ps) h =
    has_empty-path name (print ps) (ground arith) ∙ has_empty-print ps (ground arith)

is_malformed-print : (ps : List Piece) → all is_piece ps ≡ true → is_malformed (print ps) ≡ false
unfolding print all
is_malformed-print [] h = unfold is_malformed in refl
is_malformed-print (literal s ∷ ps) h =
    is_malformed-append s (print ps) (ground arith) ∙ is_malformed-print ps (ground arith)
is_malformed-print (path name ∷ ps) h =
    is_malformed-path name (print ps) (ground arith) ∙ is_malformed-print ps (ground arith)

module _ (resolve : String → Resolved) where
  close-name :
      (name : String) (rest : Resolved)
      → is_empty name ≡ false
      → close resolve name rest ≡ (resolve name >>= λ value. before value rest)
  close-name name rest h = rw h refl

  substitute-opening :
      (t : String)
      → substitute resolve none (String.◌∷◌ "$" (String.◌∷◌ "{" t))
        ≡ substitute resolve (some String.[]) t
  unfolding substitute
  substitute-opening t = refl

  substitute-path :
      (name t : String)
      → is_path name ≡ true
      → substitute resolve none (String.◌∷◌ "$" (String.◌∷◌ "{" (after_name name t)))
        ≡ (resolve name >>= λ value. before value (substitute resolve none t))
  substitute-path name t h =
      substitute-opening (after_name name t)
      ∙ substitute-name resolve String.[] name t (ground arith)
      ∙ rw nil-append (close-name name (substitute resolve none t) (ground arith))

  substitute-print :
      (ps : List Piece)
      → all is_piece ps ≡ true
      → substitute resolve none (print ps) ≡ meaning resolve ps
  unfolding print meaning all
  substitute-print [] h = unfold substitute in refl
  substitute-print (literal s ∷ ps) h =
      substitute-append resolve s (print ps) (ground arith)
      ∙ ap (before s) (substitute-print ps (ground arith))
  substitute-print (path name ∷ ps) h =
      substitute-path name (print ps) (ground arith)
      ∙ ap (λ r. resolve name >>= λ value. before value r) (substitute-print ps (ground arith))

  -- a text without `${` is left as it is
  substitute_plain : (t : String) → has_placeholder t ≡ false → substitute resolve none t ≡ ok t
  unfolding has_placeholder substitute
  substitute_plain String.[] h = refl
  substitute_plain (String.◌∷◌ c String.[]) h = refl
  substitute_plain (String.◌∷◌ c (String.◌∷◌ d s)) h =
      ground (arith, substitute_plain (String.◌∷◌ d s))

-- A template that is put together from literal texts without dollar signs and from non-empty paths in
-- `${` and `}`, which hold no dollar sign, brace or line break, resolves to the literal texts and to what
-- the paths read, in order, or fails as the first path that cannot be read.
pub resolve_placeholders-print :
    (py : Python) (context : ExecutionContext) (ps : List Piece)
    → all is_piece ps ≡ true
    → resolve_placeholders py context (print ps)
      ≡ meaning (λ name. resolve_dot_path py name context) ps
unfolding resolve_placeholders
resolve_placeholders-print py context ps h =
    let resolve = λ (name : String). resolve_dot_path py name context in
    let same = substitute-print resolve ps h in
    elim (Bool-cases (has_placeholder (print ps))) [
      | inl e ↦ rw (e, has_empty-print ps h, is_malformed-print ps h) same
      | inr e ↦ rw e (sym (substitute_plain resolve (print ps) e) ∙ same)
    ]
