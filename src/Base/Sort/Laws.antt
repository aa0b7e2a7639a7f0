-- ===== src/Base/Sort/Laws.antt =====
-- `sorted` reorders and its result ascends.
use yoinkc.Base.{
  ℕ, String, ◌≡◌, refl, Bool, true, false, not, ◌&&◌, ◌||◌, List, [], ◌∷◌, arith, All, length, Eq,
  ◌==◌, contains, Distinct, keep_if,
}
use yoinkc.Base.Text.{codes}
use yoinkc.Base.Sort.{insert_by, sort_by, unique_after, unique, codes_leb, str_leb, sorted}
use mathlib.Core.List.{Perm}
use mathlib.Core.List.Perm
use mathlib.Core.Path.{ap₂}
use text.Mathlib.TextEquality.{Char-path}

-- Each item is at most every later one.
abbrev pub Ascends {ℓ} : {A : Type ℓ} → (A → A → Bool) → List A → Type 0
Ascends le [] = Unit
Ascends le (x ∷ xs) = All (λ y. le x y ≡ true) xs × Ascends le xs

module _ {ℓ} {A : Type ℓ} (le : A → A → Bool) where
  insert_by-perm : (x : A) (xs : List A) → Perm (insert_by le x xs) (x ∷ xs)
  unfolding insert_by
  insert_by-perm x [] = Perm.rfl
  insert_by-perm x (y ∷ ys) = ground (
    arith,
    Perm.rfl {l = x ∷ y ∷ ys},
    Perm.trans (Perm.cons y (insert_by-perm x ys)) (Perm.swap x y ys),
  )

  pub sort_by-perm : (xs : List A) → Perm (sort_by le xs) xs
  unfolding sort_by
  sort_by-perm [] = Perm.rfl
  sort_by-perm (x ∷ xs) =
      Perm.trans (insert_by-perm x (sort_by le xs)) (Perm.cons x (sort_by-perm xs))

  length-keep_if-insert_by :
      (p : A → Bool) (x : A) (xs : List A)
      → length (keep_if p (insert_by le x xs)) ≡ length (keep_if p (x ∷ xs))
  unfolding insert_by keep_if
  length-keep_if-insert_by p x [] = refl
  length-keep_if-insert_by p x (y ∷ ys) = ground (arith, length-keep_if-insert_by p x ys)

  -- As many items pass a test after the sort as before.
  pub length-keep_if-sort_by :
      (p : A → Bool) (xs : List A) → length (keep_if p (sort_by le xs)) ≡ length (keep_if p xs)
  unfolding sort_by keep_if
  length-keep_if-sort_by p [] = refl
  length-keep_if-sort_by p (x ∷ xs) =
      ground (arith, length-keep_if-insert_by p x (sort_by le xs), length-keep_if-sort_by p xs)

  length-insert_by : (x : A) (xs : List A) → length (insert_by le x xs) ≡ length (x ∷ xs)
  unfolding insert_by
  length-insert_by x [] = refl
  length-insert_by x (y ∷ ys) = ground (arith, length-insert_by x ys)

  pub length-sort_by : (xs : List A) → length (sort_by le xs) ≡ length xs
  unfolding sort_by
  length-sort_by [] = refl
  length-sort_by (x ∷ xs) = cc (length-insert_by x (sort_by le xs), length-sort_by xs)

  All-insert_by :
      (P : A → Type 0) (x : A) (xs : List A) → P x → All P xs → All P (insert_by le x xs)
  unfolding insert_by
  All-insert_by P x [] p h = (p, tt)
  All-insert_by P x (y ∷ ys) p h = ground (arith, All-insert_by P x ys p h.1)

  pub All-sort_by : (P : A → Type 0) (xs : List A) → All P xs → All P (sort_by le xs)
  unfolding sort_by
  All-sort_by P [] h = tt
  All-sort_by P (x ∷ xs) h = All-insert_by P x (sort_by le xs) h.0 (All-sort_by P xs h.1)

module _ {ℓ} {A : Type ℓ} (le : A → A → Bool) (total : (x y : A) → le x y ≡ false → le y x ≡ true)
    (trans : (x y z : A) → le x y ≡ true → le y z ≡ true → le x z ≡ true) where
  All-below :
      (x y : A) (ys : List A)
      → le x y ≡ true
      → All (λ z. le y z ≡ true) ys
      → All (λ z. le x z ≡ true) ys
  All-below x y [] h a = tt
  All-below x y (z ∷ zs) h a = (trans x y z h a.0, All-below x y zs h a.1)

  insert_by-Ascends : (x : A) (xs : List A) → Ascends le xs → Ascends le (insert_by le x xs)
  unfolding insert_by
  insert_by-Ascends x [] h = (tt, tt)
  insert_by-Ascends x (y ∷ ys) h = ground (
    arith,
    All-below x y ys,
    insert_by-Ascends x ys h.1,
    total x y,
    All-insert_by le (λ z. le y z ≡ true) x ys,
  )

  pub sort_by-Ascends : (xs : List A) → Ascends le (sort_by le xs)
  unfolding sort_by
  sort_by-Ascends [] = tt
  sort_by-Ascends (x ∷ xs) = insert_by-Ascends x (sort_by le xs) (sort_by-Ascends xs)

codes_leb_total : (xs ys : List ℕ) → codes_leb xs ys ≡ false → codes_leb ys xs ≡ true
unfolding codes_leb
codes_leb_total [] ys h = ground arith
codes_leb_total (x ∷ xs) [] h = refl
codes_leb_total (x ∷ xs) (y ∷ ys) h = ground (arith, codes_leb_total xs ys)

codes_leb_trans :
    (xs ys zs : List ℕ) → codes_leb xs ys ≡ true → codes_leb ys zs ≡ true → codes_leb xs zs ≡ true
unfolding codes_leb
codes_leb_trans [] ys zs h k = refl
codes_leb_trans (x ∷ xs) [] zs h k = ground arith
codes_leb_trans (x ∷ xs) (y ∷ ys) [] h k = ground arith
codes_leb_trans (x ∷ xs) (y ∷ ys) (z ∷ zs) h k = ground (arith, codes_leb_trans xs ys zs)

pub sorted-Ascends : (xs : List String) → Ascends str_leb (sorted xs)
unfolding sorted
sorted-Ascends =
    sort_by-Ascends str_leb (λ s t. unfold str_leb in codes_leb_total (codes s) (codes t))
      (λ s t u. unfold str_leb in codes_leb_trans (codes s) (codes t) (codes u))

pub sorted-perm : (xs : List String) → Perm (sorted xs) xs
unfolding sorted
sorted-perm = sort_by-perm str_leb

module _ {ℓ} {A : Type ℓ} ⦃e : Eq A⦄ where
  contains-insert_by :
      (le : A → A → Bool) (x : A) (xs : List A) (a : A)
      → contains (insert_by le x xs) a ≡ ((a == x) || contains xs a)
  unfolding insert_by contains
  contains-insert_by le x [] a = refl
  contains-insert_by le x (y ∷ ys) a = ground (arith, contains-insert_by le x ys a)

  pub contains-sort_by :
      (le : A → A → Bool) (xs : List A) (a : A) → contains (sort_by le xs) a ≡ contains xs a
  unfolding sort_by contains
  contains-sort_by le [] a = refl
  contains-sort_by le (x ∷ xs) a =
      ground (arith, contains-insert_by le x (sort_by le xs) a, contains-sort_by le xs a)

  insert_by-Distinct :
      (le : A → A → Bool) (x : A) (xs : List A)
      → contains xs x ≡ false
      → Distinct xs
      → Distinct (insert_by le x xs)
  unfolding insert_by contains
  insert_by-Distinct le x [] n h = (refl, tt)
  insert_by-Distinct le x (y ∷ ys) n h =
      ground (arith, insert_by-Distinct le x ys, contains-insert_by le x ys y)

  pub sort_by-Distinct : (le : A → A → Bool) (xs : List A) → Distinct xs → Distinct (sort_by le xs)
  unfolding sort_by
  sort_by-Distinct le [] h = tt
  sort_by-Distinct le (x ∷ xs) h = ground (
    arith,
    insert_by-Distinct le x (sort_by le xs),
    sort_by-Distinct le xs,
    contains-sort_by le xs x,
  )

  contains-unique_after :
      (seen xs : List A) (a : A)
      → contains (unique_after seen xs) a ≡ (contains xs a && not (contains seen a))
  unfolding unique_after contains
  contains-unique_after seen [] a = refl
  contains-unique_after seen (x ∷ xs) a =
      ground (arith, contains-unique_after seen xs a, contains-unique_after (x ∷ seen) xs a)

  pub contains-unique : (xs : List A) (a : A) → contains (unique xs) a ≡ contains xs a
  unfolding unique contains
  contains-unique xs a = ground (arith, contains-unique_after [] xs a)

  unique_after-Distinct : (seen xs : List A) → Distinct (unique_after seen xs)
  unfolding unique_after contains
  unique_after-Distinct seen [] = tt
  unique_after-Distinct seen (x ∷ xs) = ground (
    arith,
    unique_after-Distinct seen xs,
    unique_after-Distinct (x ∷ seen) xs,
    contains-unique_after (x ∷ seen) xs x,
  )

  pub unique-Distinct : (xs : List A) → Distinct (unique xs)
  unfolding unique
  unique-Distinct xs = unique_after-Distinct [] xs

pub str_leb_total : (s t : String) → str_leb s t ≡ false → str_leb t s ≡ true
unfolding str_leb
str_leb_total s t = codes_leb_total (codes s) (codes t)

codes_leb_antisym : (xs ys : List ℕ) → codes_leb xs ys ≡ true → codes_leb ys xs ≡ true → xs ≡ ys
unfolding codes_leb
codes_leb_antisym [] [] h k = refl
codes_leb_antisym [] (y ∷ ys) h k = ground arith
codes_leb_antisym (x ∷ xs) [] h k = ground arith
codes_leb_antisym (x ∷ xs) (y ∷ ys) h k = ground (arith, codes_leb_antisym xs ys)

codes_injective : (s t : String) → codes s ≡ codes t → s ≡ t
codes_injective String.[] String.[] h = refl
codes_injective String.[] (String.◌∷◌ d t) h = cc
codes_injective (String.◌∷◌ c s) String.[] h = cc
codes_injective (String.◌∷◌ c s) (String.◌∷◌ d t) h =
    ap₂ String.◌∷◌ (Char-path c d (cc)) (codes_injective s t (cc))

pub str_leb_antisym : (s t : String) → str_leb s t ≡ true → str_leb t s ≡ true → s ≡ t
unfolding str_leb
str_leb_antisym s t h k = codes_injective s t (codes_leb_antisym (codes s) (codes t) h k)

pub str_leb_trans : (s t u : String) → str_leb s t ≡ true → str_leb t u ≡ true → str_leb s u ≡ true
unfolding str_leb
str_leb_trans s t u = codes_leb_trans (codes s) (codes t) (codes u)
