-- ===== src/Base/Counting.antt =====
-- How often a text stands in a list; and that a list in strict order is the only sorted one with its
-- members.
use conformance_suite_v.Base.Tests.{str_eq}
use conformance_suite_v.Base.Lists.{count_if, All}
use conformance_suite_v.Base.Sort.{insert_by, sort_by, IsSortedBy}
use Prim.Native.Nat.{ℕ, ◌+◌, ◌≤◌, ◌<◌}
use Prim.Native.String.{String}
use mathlib.Core.Path.{◌≡◌, refl}
use mathlib.Core.List.{List, [], ◌∷◌, ◌++◌}
use native.Mathlib.Omega.{arith}
use text.Mathlib.TextEquality.{eq_iff}

-- `xs.count(a)`
abbrev pub count : String → List String → ℕ
count a xs = count_if (λ x. str_eq a x) xs

pub count-append : (a : String) (xs ys : List String) → count a (xs ++ ys) ≡ count a xs + count a ys
unfolding count_if
count-append a [] ys = omega arith
count-append a (x ∷ xs) ys = ground (arith, count-append a xs ys)

module _ (key : String → ℕ) where
  count-insert_by :
      (a x : String) (ys : List String) → count a (insert_by key x ys) ≡ count a (x ∷ ys)
  unfolding insert_by count_if
  count-insert_by a x [] = refl
  count-insert_by a x (y ∷ ys) = ground (arith, count-insert_by a x ys)

  pub count-sort_by : (a : String) (xs : List String) → count a (sort_by key xs) ≡ count a xs
  unfolding sort_by count_if
  count-sort_by a [] = refl
  count-sort_by a (x ∷ xs) =
      ground (arith, count-insert_by a x (sort_by key xs), count-sort_by a xs)

  abbrev pub IsStrict : List String → Type 0
  IsStrict [] = Unit
  IsStrict (x ∷ xs) = All (λ y. key x < key y) xs × IsStrict xs

  le_of_count :
      (n : ℕ) (k : String) (xs : List String) → All (λ y. n ≤ key y) xs → 0 < count k xs → n ≤ key k
  unfolding count_if
  le_of_count n k [] h c = absurd (omega arith)
  le_of_count n k (x ∷ xs) (h, hs) c = ground (arith, eq_iff k x, le_of_count n k xs hs)

  lt_of_count :
      (n : ℕ) (k : String) (xs : List String) → All (λ y. n < key y) xs → 0 < count k xs → n < key k
  unfolding count_if
  lt_of_count n k [] h c = absurd (omega arith)
  lt_of_count n k (x ∷ xs) (h, hs) c = ground (arith, eq_iff k x, lt_of_count n k xs hs)

  -- two heads with the other's members below them
  heads_eq :
      (x y : String) (xs ys : List String)
      → All (λ z. key x ≤ key z) xs
      → All (λ z. key y < key z) ys
      → count x (x ∷ xs) ≡ count x (y ∷ ys)
      → count y (x ∷ xs) ≡ count y (y ∷ ys)
      → x ≡ y
  unfolding count_if
  heads_eq x y xs ys hx hy cx cy = ground (
    arith,
    eq_iff x y,
    eq_iff y x,
    eq_iff x x,
    eq_iff y y,
    le_of_count (key x) y xs hx,
    lt_of_count (key y) x ys hy,
  )

  pub strict_unique :
      (xs ys : List String)
      → IsSortedBy key xs
      → IsStrict ys
      → ((a : String) → count a xs ≡ count a ys)
      → xs ≡ ys
  unfolding count_if
  strict_unique [] [] s t h = refl
  strict_unique [] (y ∷ ys) s t h = absurd (ground (arith, h y, eq_iff y y))
  strict_unique (x ∷ xs) [] s t h = absurd (ground (arith, h x, eq_iff x x))
  strict_unique (x ∷ xs) (y ∷ ys) (hx, s) (hy, t) h =
      let same = heads_eq x y xs ys hx hy (h x) (h y) in
      let rest = strict_unique xs ys s t (λ a. ground (arith, same, h a)) in cc
