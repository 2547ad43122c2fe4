-- ===== src/Base/Dict.antt =====
-- Python's `dict` with text keys, in insertion order. An assignment to a key that is present
-- keeps the key's place, and one to a new key puts it last.
pub mod Distinct
pub mod Size
use Prim.Native.Nat.{◌+◌, ◌≤◌}
use Prim.Native.String.{String}
use mathlib.Core.Path.{◌≡◌, refl}
use mathlib.Core.Bool.{Bool, true}
use mathlib.Core.Option.{Option, none, some}
use mathlib.Core.List.{List, [], ◌∷◌, ◌++◌}
use native.Mathlib.Omega.{arith}
use text.Mathlib.TextEquality.{eq_iff}
use conformance_suite_v.Base.Tests.{str_eq, if◌then◌else◌, is_some}
use conformance_suite_v.Base.Lists.{All, count_if}

abbrev pub Dict {ℓ} : Type ℓ → Type ℓ
Dict V = List (String × V)

module _ {ℓ} {V : Type ℓ} where
  -- `d.get(k)`
  unfoldable pub get : Dict V → String → Option V
  get [] k = none
  get ((j, v) ∷ d) k = if str_eq j k then some v else get d k

  -- `d[k] = v`
  unfoldable pub put : Dict V → String → V → Dict V
  put [] k v = (k, v) ∷ []
  put ((j, w) ∷ d) k v = if str_eq j k then (j, v) ∷ d else (j, w) ∷ put d k v

  -- `del d[k]`
  unfoldable pub del : Dict V → String → Dict V
  del [] k = []
  del ((j, v) ∷ d) k = let rest = del d k in if str_eq j k then rest else (j, v) ∷ rest

  -- `list(d)`
  unfoldable pub keys : Dict V → List String
  keys [] = []
  keys ((j, v) ∷ d) = j ∷ keys d

  -- `list(d.values())`
  unfoldable pub values : Dict V → List V
  values [] = []
  values ((j, v) ∷ d) = v ∷ values d

  -- `k in d`
  abbrev pub has : Dict V → String → Bool
  has d k = is_some (get d k)

module _ {ℓ} {V : Type ℓ} where
  pub get-put :
      (d : Dict V) (k j : String) (v : V)
      → get (put d k v) j ≡ (if str_eq k j then some v else get d j)
  unfolding get put
  get-put [] k j v = refl
  get-put ((i, w) ∷ d) k j v = ground (arith, eq_iff k j, eq_iff i k, eq_iff i j, get-put d k j v)

  pub get-del :
      (d : Dict V) (k j : String) → get (del d k) j ≡ (if str_eq k j then none else get d j)
  unfolding get del
  get-del [] k j = ground arith
  get-del ((i, w) ∷ d) k j = ground (arith, eq_iff k j, eq_iff i k, eq_iff i j, get-del d k j)

  -- a new key goes last
  pub put_new : (d : Dict V) (k : String) (v : V) → get d k ≡ none → put d k v ≡ d ++ (k, v) ∷ []
  unfolding get put
  put_new [] k v h = refl
  put_new ((i, w) ∷ d) k v h = ground (arith, put_new d k v)

  -- an assignment to a key that is there leaves the keys as they were
  pub keys-put : (d : Dict V) (k : String) (v : V) → has d k ≡ true → keys (put d k v) ≡ keys d
  unfolding get put keys
  keys-put [] k v h = absurd (cc)
  keys-put ((i, w) ∷ d) k v h = ground (arith, keys-put d k v)

  module _ {κ} (P : String × V → Type κ) where
    pub All-put : (d : Dict V) (k : String) (v : V) → P (k, v) → All P d → All P (put d k v)
    unfolding put
    All-put [] k v p h = (p, tt)
    All-put ((i, w) ∷ d) k v p (q, h) = ground (arith, eq_iff i k, All-put d k v p h)

    pub All-del : (d : Dict V) (k : String) → All P d → All P (del d k)
    unfolding del
    All-del [] k h = tt
    All-del ((i, w) ∷ d) k (q, h) = ground (arith, All-del d k h)

    pub All-get : (d : Dict V) (k : String) (v : V) → All P d → get d k ≡ some v → P (k, v)
    unfolding get
    All-get [] k v h e = absurd (cc)
    All-get ((i, w) ∷ d) k v (q, h) e = ground (arith, eq_iff i k, All-get d k v h)

  -- how many entries pass a test, after each operation
  module _ (p : String × V → Bool) where
    pub count_if-put_new :
        (d : Dict V) (k : String) (v : V)
        → get d k ≡ none
        → count_if p (put d k v) ≡ count_if p d + (if p (k, v) then 1 else 0)
    unfolding get put count_if
    count_if-put_new [] k v h = ground arith
    count_if-put_new ((i, w) ∷ d) k v h = ground (arith, count_if-put_new d k v)

    pub count_if-put_same :
        (d : Dict V) (k : String) (v w : V)
        → get d k ≡ some w
        → p (k, v) ≡ p (k, w)
        → count_if p (put d k v) ≡ count_if p d
    unfolding get put count_if
    count_if-put_same [] k v w h e = absurd (cc)
    count_if-put_same ((i, u) ∷ d) k v w h e = ground (arith, eq_iff i k, count_if-put_same d k v w)

    pub count_if-del : (d : Dict V) (k : String) → count_if p (del d k) ≤ count_if p d
    unfolding del count_if
    count_if-del [] k = omega arith
    count_if-del ((i, u) ∷ d) k = ground (arith, count_if-del d k)
