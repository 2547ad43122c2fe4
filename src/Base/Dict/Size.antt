-- ===== src/Base/Dict/Size.antt =====
-- How many entries a `dict` has after an assignment or a deletion.
use Prim.Native.Nat.{suc, ◌+◌}
use Prim.Native.String.{String}
use mathlib.Core.Path.{◌≡◌, refl}
use mathlib.Core.Bool.{Bool, true, false}
use mathlib.Core.Option.{none}
use mathlib.Core.List.{List, [], ◌∷◌}
use native.Mathlib.Omega.{arith}
use text.Mathlib.TextEquality.{eq_iff}
use conformance_suite_v.Base.Tests.{str_eq}
use conformance_suite_v.Base.Lists.{elem, length}
use conformance_suite_v.Base.Dict.{Dict, get, put, del, keys, has, get-del}
use conformance_suite_v.Base.Dict.Distinct.{
  Distinct, Distinct-del, del_all, elem-keys, keys_where, elem-keys_where, keys_where_missing,
}

module _ {ℓ} {V : Type ℓ} where
  pub length-put_new :
      (d : Dict V) (k : String) (v : V) → get d k ≡ none → length (put d k v) ≡ suc (length d)
  unfolding get put
  length-put_new [] k v h = refl
  length-put_new ((i, w) ∷ d) k v h = ground (arith, length-put_new d k v)

  pub length-put_same :
      (d : Dict V) (k : String) (v : V) → has d k ≡ true → length (put d k v) ≡ length d
  unfolding get put
  length-put_same [] k v h = absurd (cc)
  length-put_same ((i, w) ∷ d) k v h = ground (arith, length-put_same d k v)

  del_missing : (d : Dict V) (k : String) → elem k (keys d) ≡ false → del d k ≡ d
  unfolding del elem keys
  del_missing [] k h = refl
  del_missing ((i, w) ∷ d) k h = ground (arith, eq_iff i k, eq_iff k i, del_missing d k)

  length-del :
      (d : Dict V) (k : String)
      → Distinct (keys d)
      → elem k (keys d) ≡ true
      → suc (length (del d k)) ≡ length d
  unfolding del elem keys
  length-del [] k h e = absurd (cc)
  length-del ((i, w) ∷ d) k h e =
      ground (arith, eq_iff i k, eq_iff k i, del_missing d k, length-del d k h.1)

  -- the keys of a list that is removed are all there
  abbrev pub AreKeys : Dict V → List String → Type 0
  AreKeys d ks = (k : String) → elem k ks ≡ true → elem k (keys d) ≡ true

  elem-keys-del_ne :
      (d : Dict V) (k i : String)
      → str_eq i k ≡ false
      → elem i (keys d) ≡ true
      → elem i (keys (del d k)) ≡ true
  elem-keys-del_ne d k i ne h =
      ground (arith, eq_iff i k, eq_iff k i, elem-keys d i, elem-keys (del d k) i, get-del d k i)

  pub length-del_all :
      (ks : List String) (d : Dict V)
      → Distinct ks
      → Distinct (keys d)
      → AreKeys d ks
      → length (del_all ks d) + length ks ≡ length d
  unfolding del_all elem
  length-del_all [] d dk dd all = omega arith
  length-del_all (k ∷ ks) d dk dd all = omega (
    arith,
    length-del d k dd (all k (ground (arith, eq_iff k k))),
    length-del_all ks (del d k) dk.1 (Distinct-del d k dd)
        (λ i h. elem-keys-del_ne d k i (ground (arith, eq_iff i k)) (all i (ground arith))),
  )

module _ {ℓ} {V : Type ℓ} (p : V → Bool) where
  pub Distinct-keys_where : (d : Dict V) → Distinct (keys d) → Distinct (keys_where p d)
  unfolding keys_where keys
  Distinct-keys_where [] h = tt
  Distinct-keys_where ((j, v) ∷ d) h =
      ground (arith, Distinct-keys_where d h.1, keys_where_missing p d j)

  pub keys_where-AreKeys : (d : Dict V) → Distinct (keys d) → AreKeys d (keys_where p d)
  keys_where-AreKeys d h k e = ground (arith, elem-keys d k, elem-keys_where p d k h)
