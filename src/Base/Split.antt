-- ===== src/Base/Split.antt =====
-- `str.split` by one character, the decimal notation of `str` and `int`, and places in a list.
use Prim.Native.Nat.{ℕ, zero, suc, ◌/◌, ◌%◌}
use Prim.Native.Char.{Char, code}
use Prim.Native.String.{String, char_at}
use Prim.Native.String
use mathlib.Core.Bool.{Bool, true, not, ◌&&◌}
use mathlib.Core.Option.{Option, none, some}
use mathlib.Core.List.{List, [], ◌∷◌}
use mathlib.Core.Path.{◌≡◌, refl, ap, ◌∙◌}
use native.Mathlib.Omega.{arith}
use text.Mathlib.TextLemmas.{nil-append, cons-append}
use conformance_suite_v.Base.Lists.{all}
use conformance_suite_v.Base.Tests.{if◌then◌else◌, ltb, ◌==◌}

-- a character in front of the first part
abbrev pub extend_first : Char → List String → List String
extend_first c [] = String.◌∷◌ c String.[] ∷ []
extend_first c (part ∷ parts) = String.◌∷◌ c part ∷ parts

-- `s.split(sep)`, where the separator is the character with this number
unfoldable pub split : ℕ → String → List String
split sep String.[] = String.[] ∷ []
split sep (String.◌∷◌ c s) =
    let rest = split sep s in if code c == sep then String.[] ∷ rest else extend_first c rest

-- `sep.join(parts)`
unfoldable pub join : Char → List String → String
join sep [] = String.[]
join sep (part ∷ []) = part
join sep (part ∷ next ∷ parts) = String.◌++◌ part (String.◌∷◌ sep (join sep (next ∷ parts)))

unfoldable pub decimal_from : ℕ → ℕ → String → String
decimal_from zero n later = later
decimal_from (suc fuel) n later =
    let more = decimal_from fuel (n / 10) (String.◌∷◌ (char_at "0123456789" (n % 10)) later) in
    if ltb n 10 then String.◌∷◌ (char_at "0123456789" n) later else more

-- `str(n)`; a number has fewer digits than its value and one
unfoldable pub decimal : ℕ → String
unfolding decimal_from
decimal n = decimal_from (suc n) n String.[]

abbrev pub get_elem? {ℓ} : {A : Type ℓ} → List A → ℕ → Option A
get_elem? [] i = none
get_elem? (x ∷ xs) zero = some x
get_elem? (x ∷ xs) (suc i) = get_elem? xs i

-- no character of the text is the separator
unfoldable pub is_free : ℕ → String → Bool
is_free sep String.[] = true
is_free sep (String.◌∷◌ c s) = not (code c == sep) && is_free sep s

split_free : (sep : ℕ) (s : String) → is_free sep s ≡ true → split sep s ≡ s ∷ []
unfolding split is_free
split_free sep String.[] h = refl
split_free sep (String.◌∷◌ c s) h = ground (arith, split_free sep s)

split-append :
    (sep : ℕ) (c : Char) (s rest : String)
    → code c ≡ sep
    → is_free sep s ≡ true
    → split sep (String.◌++◌ s (String.◌∷◌ c rest)) ≡ s ∷ split sep rest
unfolding split is_free
split-append sep c String.[] rest is h = rw nil-append (ground arith)
split-append sep c (String.◌∷◌ d s) rest is h =
    rw cons-append (ground (arith, split-append sep c s rest is))

-- What was joined is split into its parts again, if there is one and none holds the separator.
pub split-join :
    (sep : ℕ) (c : Char) (part : String) (parts : List String)
    → code c ≡ sep
    → is_free sep part ≡ true
    → all (is_free sep) parts ≡ true
    → split sep (join c (part ∷ parts)) ≡ part ∷ parts
unfolding join all
split-join sep c part [] is h hs = split_free sep part h
split-join sep c part (next ∷ parts) is h hs =
    split-append sep c part (join c (next ∷ parts)) is h
    ∙ ap (λ l. part ∷ l) (split-join sep c next parts is (ground arith) (ground arith))
