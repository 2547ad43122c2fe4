-- ===== src/Base/Text.antt =====
-- Operations on the texts of Python, which are lists of code points.
use Prim.Native.Nat.{Ordering}
use Prim.Native.Nat.{◌-◌}
use Prim.Native.Char.{Char, code}
use Prim.Native.String.{String, compare, char_at}
use mathlib.Core.Bool.{Bool, true, false}
use Prim.Native.String.compare as text_compare
use mathlib.Core.Path.{◌≡◌}
use native.Mathlib.Omega.{arith}
use mathlib.Core.List.{List, [], ◌∷◌}
use mathlib.Core.Bool.{◌&&◌}
use conformance_suite_v.Base.Tests.{if◌then◌else◌, leb, ◌==◌}
use conformance_suite_v.Base.Lists.{elem}

-- `a <= b`
abbrev pub text_leb : String → String → Bool
text_leb a b = elim (compare a b) [ Ordering.gt ↦ false | _ ↦ true ]

insert_text : String → List String → List String
insert_text x [] = x ∷ []
insert_text x (y ∷ ys) =
    let rest = insert_text x ys in if text_leb x y then x ∷ y ∷ ys else y ∷ rest

-- `sorted(set(xs))`
unfoldable pub sorted_set : List String → List String
unfolding insert_text
sorted_set [] = []
sorted_set (x ∷ xs) = let rest = sorted_set xs in if elem x xs then rest else insert_text x rest

-- The characters whose lower case is an ASCII one: the capital letters, and the Kelvin sign, which
-- becomes `k`. The others stay here as they are, and in `str.lower` as other characters outside ASCII,
-- so that no comparison with an ASCII text tells the two apart.
abbrev lower_char : Char → Char
lower_char c =
    if leb 65 (code c) && leb (code c) 90
    then char_at "abcdefghijklmnopqrstuvwxyz" (code c - 65)
    else if code c == 8490
    then char_at "k" 0
    else c

-- `s.lower()`
unfoldable pub lower : String → String
lower String.[] = String.[]
lower (String.◌∷◌ c s) = String.◌∷◌ (lower_char c) (lower s)

pub text_leb-total : (a b : String) → text_leb a b ≡ false → text_leb b a ≡ true
text_leb-total String.[] String.[] h = absurd (cc)
text_leb-total String.[] (String.◌∷◌ d t) h = ground (arith, text_compare.nil-cons d t)
text_leb-total (String.◌∷◌ c s) String.[] h = ground (arith, text_compare.nil-cons c s)
text_leb-total (String.◌∷◌ c s) (String.◌∷◌ d t) h =
    ground
      (arith, text_compare.cons-cons c d s t, text_compare.cons-cons d c t s, text_leb-total s t)
