-- ===== src/Base/Dict/Distinct.antt =====
-- A `dict` holds each key once. What that gives for the deletion of the keys that pass a test.
use Prim.Native.String.{String}
use mathlib.Core.Path.{◌≡◌, refl}
use mathlib.Core.Bool.{Bool, false, ◌||◌}
use mathlib.Core.Option.{Option, none, some}
use mathlib.Core.List.{List, [], ◌∷◌}
use conformance_suite_v.Base.Dict
use native.Mathlib.Omega.{arith}
use text.Mathlib.TextEquality.{eq_iff}
use conformance_suite_v.Base.Tests.{str_eq, if◌then◌else◌}
use conformance_suite_v.Base.Lists.{elem, length, count_if}
use conformance_suite_v.Base.Dict.{Dict, get, put, del, keys, has}

abbrev pub Distinct : List String → Type 0
Distinct [] = Unit
Distinct (x ∷ xs) = (elem x xs ≡ false) × Distinct xs

-- `for k in ks: del d[k]`
unfoldable pub del_all {ℓ} : {V : Type ℓ} → List String → Dict V → Dict V
del_all [] d = d
del_all (k ∷ ks) d = del_all ks (del d k)

module _ {ℓ} {V : Type ℓ} where
  pub elem-keys : (d : Dict V) (k : String) → elem k (keys d) ≡ has d k
  unfolding elem keys get
  elem-keys [] k = refl
  elem-keys ((i, w) ∷ d) k = ground (arith, eq_iff i k, eq_iff k i, elem-keys d k)

  elem-keys-put :
      (d : Dict V) (k i : String) (v : V)
      → elem i (keys (put d k v)) ≡ (str_eq k i || elem i (keys d))
  unfolding elem keys put
  elem-keys-put [] k i v = ground (arith, eq_iff k i, eq_iff i k)
  elem-keys-put ((j, w) ∷ d) k i v =
      ground (arith, eq_iff k i, eq_iff i k, eq_iff j k, eq_iff i j, elem-keys-put d k i v)

  elem-keys-del :
      (d : Dict V) (k i : String) → elem i (keys d) ≡ false → elem i (keys (del d k)) ≡ false
  unfolding elem keys del
  elem-keys-del [] k i h = h
  elem-keys-del ((j, w) ∷ d) k i h = ground (arith, elem-keys-del d k i)

  pub Distinct-put :
      (d : Dict V) (k : String) (v : V) → Distinct (keys d) → Distinct (keys (put d k v))
  unfolding elem keys put
  Distinct-put [] k v h = (refl, tt)
  Distinct-put ((j, w) ∷ d) k v h =
      ground (arith, eq_iff j k, eq_iff k j, elem-keys-put d k j v, Distinct-put d k v h.1)

  pub Distinct-del : (d : Dict V) (k : String) → Distinct (keys d) → Distinct (keys (del d k))
  unfolding elem keys del
  Distinct-del [] k h = tt
  Distinct-del ((j, w) ∷ d) k h = ground (arith, elem-keys-del d k j h.0, Distinct-del d k h.1)

  pub Distinct-del_all :
      (ks : List String) (d : Dict V) → Distinct (keys d) → Distinct (keys (del_all ks d))
  unfolding del_all
  Distinct-del_all [] d h = h
  Distinct-del_all (k ∷ ks) d h = Distinct-del_all ks (del d k) (Distinct-del d k h)

  pub get-del_all :
      (ks : List String) (d : Dict V) (k : String)
      → get (del_all ks d) k ≡ (if elem k ks then none else get d k)
  unfolding del_all elem
  get-del_all [] d k = refl
  get-del_all (i ∷ ks) d k =
      ground (arith, eq_iff i k, eq_iff k i, get-del_all ks (del d i) k, Dict.get-del d i k)

-- the test of `d[k]`, and `false` at a key that is missing
abbrev pub passes {ℓ} : {V : Type ℓ} → (V → Bool) → Option V → Bool
passes p none = false
passes p (some v) = p v

module _ {ℓ} {V : Type ℓ} (p : V → Bool) where
  -- `[k for k, v in d.items() if p(v)]`
  unfoldable pub keys_where : Dict V → List String
  keys_where [] = []
  keys_where ((j, v) ∷ d) = let rest = keys_where d in if p v then j ∷ rest else rest

  pub keys_where_missing :
      (d : Dict V) (k : String) → elem k (keys d) ≡ false → elem k (keys_where d) ≡ false
  unfolding keys_where elem keys
  keys_where_missing [] k h = refl
  keys_where_missing ((j, v) ∷ d) k h = ground (arith, keys_where_missing d k)

  pub elem-keys_where :
      (d : Dict V) (k : String) → Distinct (keys d) → elem k (keys_where d) ≡ passes p (get d k)
  unfolding keys_where elem get keys
  elem-keys_where [] k h = refl
  elem-keys_where ((j, v) ∷ d) k h =
      ground (arith, eq_iff j k, eq_iff k j, elem-keys_where d k h.1, keys_where_missing d k)

  pub length-keys_where : (d : Dict V) → length (keys_where d) ≡ count_if (λ e. p e.1) d
  unfolding keys_where count_if
  length-keys_where [] = refl
  length-keys_where ((j, v) ∷ d) = ground (arith, length-keys_where d)
