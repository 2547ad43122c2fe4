-- ===== src/Base/Sort.antt =====
-- `ks.sort(key=…)` over texts with a number for the key: stable. And slices of a list.
use Prim.Native.Nat.{ℕ, zero, suc, ◌≤◌}
use Prim.Native.String.{String}
use mathlib.Core.Path.{◌≡◌, refl}
use mathlib.Core.Bool.{true, false}
use mathlib.Core.Logic.{inl, inr}
use mathlib.Core.List.{List, [], ◌∷◌}
use native.Mathlib.Omega.{arith}
use text.Mathlib.TextEquality.{eq_iff}
use conformance_suite_v.Base.Tests.{leb, if◌then◌else◌, Bool-cases}
use conformance_suite_v.Base.Lists.{elem, length, All}
use conformance_suite_v.Base.Dict.Distinct.{Distinct}

abbrev pub take {ℓ} : {A : Type ℓ} → ℕ → List A → List A
take zero xs = []
take (suc n) [] = []
take (suc n) (x ∷ xs) = x ∷ take n xs

abbrev pub drop {ℓ} : {A : Type ℓ} → ℕ → List A → List A
drop zero xs = xs
drop (suc n) [] = []
drop (suc n) (x ∷ xs) = drop n xs

module _ (key : String → ℕ) where
  unfoldable pub insert_by : String → List String → List String
  insert_by x [] = x ∷ []
  insert_by x (y ∷ ys) =
      let rest = insert_by x ys in if leb (key x) (key y) then x ∷ y ∷ ys else y ∷ rest

  unfoldable pub sort_by : List String → List String
  unfolding insert_by
  sort_by [] = []
  sort_by (x ∷ xs) = insert_by x (sort_by xs)

  abbrev pub IsSortedBy : List String → Type 0
  IsSortedBy [] = Unit
  IsSortedBy (x ∷ xs) = All (λ y. key x ≤ key y) xs × IsSortedBy xs

  elem-insert_by : (a x : String) (ys : List String) → elem a (insert_by x ys) ≡ elem a (x ∷ ys)
  unfolding insert_by elem
  elem-insert_by a x [] = refl
  elem-insert_by a x (y ∷ ys) = ground (arith, elem-insert_by a x ys)

  pub elem-sort_by : (a : String) (xs : List String) → elem a (sort_by xs) ≡ elem a xs
  unfolding sort_by elem
  elem-sort_by a [] = refl
  elem-sort_by a (x ∷ xs) = ground (arith, elem-insert_by a x (sort_by xs), elem-sort_by a xs)

  length-insert_by : (x : String) (ys : List String) → length (insert_by x ys) ≡ suc (length ys)
  unfolding insert_by
  length-insert_by x [] = refl
  length-insert_by x (y ∷ ys) = ground (arith, length-insert_by x ys)

  pub length-sort_by : (xs : List String) → length (sort_by xs) ≡ length xs
  unfolding sort_by
  length-sort_by [] = refl
  length-sort_by (x ∷ xs) = omega (arith, length-insert_by x (sort_by xs), length-sort_by xs)

  Distinct-insert_by :
      (x : String) (ys : List String) → elem x ys ≡ false → Distinct ys → Distinct (insert_by x ys)
  unfolding insert_by elem
  Distinct-insert_by x [] h d = (refl, tt)
  Distinct-insert_by x (y ∷ ys) h d =
      ground (arith, eq_iff x y, eq_iff y x, elem-insert_by y x ys, Distinct-insert_by x ys)

  pub Distinct-sort_by : (xs : List String) → Distinct xs → Distinct (sort_by xs)
  unfolding sort_by
  Distinct-sort_by [] d = tt
  Distinct-sort_by (x ∷ xs) d =
      Distinct-insert_by x (sort_by xs) (ground (arith, elem-sort_by x xs))
        (Distinct-sort_by xs d.1)

  All-le_trans :
      (a b : ℕ) (ys : List String) → a ≤ b → All (λ y. b ≤ key y) ys → All (λ y. a ≤ key y) ys
  All-le_trans a b [] h g = tt
  All-le_trans a b (y ∷ ys) h (g, gs) = (omega arith, All-le_trans a b ys h gs)

  All-insert_by :
      (a : ℕ) (x : String) (ys : List String)
      → a ≤ key x
      → All (λ y. a ≤ key y) ys
      → All (λ y. a ≤ key y) (insert_by x ys)
  unfolding insert_by
  All-insert_by a x [] h g = (h, tt)
  All-insert_by a x (y ∷ ys) h (g, gs) = ground (arith, All-insert_by a x ys h gs)

  insert_by-IsSortedBy :
      (x : String) (ys : List String) → IsSortedBy ys → IsSortedBy (insert_by x ys)
  unfolding insert_by
  insert_by-IsSortedBy x [] s = (tt, tt)
  insert_by-IsSortedBy x (y ∷ ys) (g, s) = elim (Bool-cases (leb (key x) (key y))) [
    | inl h ↦ rw h ((ground arith, All-le_trans (key x) (key y) ys (ground arith) g), (g, s))
    | inr h ↦ rw h (All-insert_by (key y) x ys (ground arith) g, insert_by-IsSortedBy x ys s)
  ]

  pub sort_by-IsSortedBy : (xs : List String) → IsSortedBy (sort_by xs)
  unfolding sort_by
  sort_by-IsSortedBy [] = tt
  sort_by-IsSortedBy (x ∷ xs) = insert_by-IsSortedBy x (sort_by xs) (sort_by-IsSortedBy xs)

pub elem-take :
    (a : String) (n : ℕ) (xs : List String) → elem a (take n xs) ≡ true → elem a xs ≡ true
unfolding elem
elem-take a zero xs h = absurd (cc)
elem-take a (suc n) [] h = h
elem-take a (suc n) (x ∷ xs) h = ground (arith, elem-take a n xs)

pub Distinct-take : (n : ℕ) (xs : List String) → Distinct xs → Distinct (take n xs)
Distinct-take zero xs d = tt
Distinct-take (suc n) [] d = tt
Distinct-take (suc n) (x ∷ xs) (e, d) = (
  elim (Bool-cases (elem x (take n xs))) [ inl h ↦ absurd (cc (elem-take x n xs h)) | inr h ↦ h ],
  Distinct-take n xs d,
)

pub length-take_le : (n : ℕ) (xs : List String) → n ≤ length xs → length (take n xs) ≡ n
length-take_le zero xs h = refl
length-take_le (suc n) [] h = absurd (omega arith)
length-take_le (suc n) (x ∷ xs) h = omega (arith, length-take_le n xs)

module _ (key : String → ℕ) where
  All-elem :
      (a : ℕ) (xs : List String) (k : String)
      → All (λ y. a ≤ key y) xs
      → elem k xs ≡ true
      → a ≤ key k
  unfolding elem
  All-elem a [] k h e = absurd (cc)
  All-elem a (x ∷ xs) k (h, hs) e = ground (arith, eq_iff k x, All-elem a xs k hs)

  -- what a slice from the front of a sorted list takes is below what it leaves
  pub take-le :
      (n : ℕ) (xs : List String) (taken left : String)
      → IsSortedBy key xs
      → elem taken (take n xs) ≡ true
      → elem left xs ≡ true
      → elem left (take n xs) ≡ false
      → key taken ≤ key left
  unfolding elem
  take-le zero xs a b s ha hb hn = absurd (cc)
  take-le (suc n) [] a b s ha hb hn = absurd (cc)
  take-le (suc n) (x ∷ xs) a b (h, s) ha hb hn =
      ground (arith, eq_iff a x, eq_iff b x, All-elem (key x) xs b h, take-le n xs a b s)
