-- ===== src/Base/Sort.antt =====
-- Python's `sorted`, which is stable, and the order of texts by code points.
pub mod Laws
pub mod Order
use yoinkc.Base.{
  ℕ, String, Bool, true, false, not, ◌&&◌, ◌||◌, List, [], ◌∷◌, ltb, Eq, ◌==◌, contains, nat_eq,
  if◌then◌else◌,
}
use yoinkc.Base.Text.{codes}

module _ {ℓ} {A : Type ℓ} (le : A → A → Bool) where
  unfoldable pub insert_by : A → List A → List A
  insert_by x [] = x ∷ []
  insert_by x (y ∷ ys) = if le x y then x ∷ y ∷ ys else y ∷ insert_by x ys

  -- An earlier item goes before a later one that compares equal.
  unfoldable pub sort_by : List A → List A
  unfolding insert_by
  sort_by [] = []
  sort_by (x ∷ xs) = insert_by x (sort_by xs)

-- set(xs), in the order of first occurrence
module _ {ℓ} {A : Type ℓ} ⦃e : Eq A⦄ where
  unfoldable pub unique_after : List A → List A → List A
  unfolding contains
  unique_after seen [] = []
  unique_after seen (x ∷ xs) =
      if contains seen x then unique_after seen xs else x ∷ unique_after (x ∷ seen) xs

  unfoldable pub unique : List A → List A
  unfolding unique_after
  unique = unique_after []

unfoldable pub codes_leb : List ℕ → List ℕ → Bool
codes_leb [] ys = true
codes_leb (x ∷ xs) [] = false
codes_leb (x ∷ xs) (y ∷ ys) = ltb x y || (not (ltb y x) && codes_leb xs ys)

-- s <= t
unfoldable pub str_leb : String → String → Bool
unfolding codes_leb
str_leb s t = codes_leb (codes s) (codes t)

-- sorted(xs) of texts
unfoldable pub sorted : List String → List String
unfolding sort_by str_leb
sorted = sort_by str_leb
