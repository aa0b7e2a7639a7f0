-- ===== src/Base/Sort/Order.antt =====
-- `sorted` with a key that no two items share: the order of the input does not matter.
use mathlib.Core.List.{Permᴰ}
use yoinkc.Base.{
  String, ◌≡◌, ◌≢◌, refl, ap, ◌∙◌, Bool, false, List, [], ◌∷◌, map, arith, contains, Distinct,
  string_eq,
}
use yoinkc.Base.Sort.{insert_by, sort_by, str_leb}
use yoinkc.Base.Sort.Laws.{str_leb_total, str_leb_antisym, str_leb_trans}

first_two : (a b : String) (rest : List String) → contains (b ∷ rest) a ≡ false → a ≢ b
unfolding contains
first_two a b rest h = ground (arith, h)

module _ {A : Type 0} (key : A → String) where
  abbrev le : A → A → Bool
  le a b = str_leb (key a) (key b)

  insert_by-insert_by :
      (x y : A) (l : List A)
      → key x ≢ key y
      → insert_by le x (insert_by le y l) ≡ insert_by le y (insert_by le x l)
  unfolding insert_by
  insert_by-insert_by x y [] d =
      ground (arith, str_leb_total (key x) (key y), str_leb_antisym (key x) (key y))
  insert_by-insert_by x y (z ∷ l) d = ground (
    arith,
    insert_by-insert_by x y l d,
    str_leb_total (key x) (key y),
    str_leb_antisym (key x) (key y),
    str_leb_trans (key x) (key y) (key z),
    str_leb_trans (key y) (key x) (key z),
  )

  contains-Permᴰ :
      (k : String) {l m : List A} → Permᴰ l m → contains (map key l) k ≡ contains (map key m) k
  unfolding contains
  contains-Permᴰ k Permᴰ.nil = refl
  contains-Permᴰ k (Permᴰ.cons e d) = cc (e, contains-Permᴰ k d)
  contains-Permᴰ k (Permᴰ.swap {a = a} {b = b} {a' = a'} {b' = b'} {l = l} e f) =
      ground (arith, ap key e, ap key f)
  contains-Permᴰ k (Permᴰ.trans d e) = contains-Permᴰ k d ∙ contains-Permᴰ k e

  Permᴰ-Distinct : {l m : List A} → Permᴰ l m → Distinct (map key l) → Distinct (map key m)
  unfolding contains
  Permᴰ-Distinct Permᴰ.nil h = h
  Permᴰ-Distinct (Permᴰ.cons e d) h = (cc (e, contains-Permᴰ _ d, h.0), Permᴰ-Distinct d h.1)
  Permᴰ-Distinct (Permᴰ.swap e f) h = ground (arith, ap key e, ap key f, h)
  Permᴰ-Distinct (Permᴰ.trans d e) h = Permᴰ-Distinct e (Permᴰ-Distinct d h)

  -- Two lists of the same items in another order are sorted to the same list.
  pub sort_by-Permᴰ :
      {l m : List A} → Permᴰ l m → Distinct (map key l) → sort_by le l ≡ sort_by le m
  unfolding sort_by
  sort_by-Permᴰ Permᴰ.nil h = refl
  sort_by-Permᴰ (Permᴰ.cons e d) h = cc (e, sort_by-Permᴰ d h.1)
  sort_by-Permᴰ (Permᴰ.swap {a = a} {b = b} {l = l} e f) h =
      cc (e, f, insert_by-insert_by a b (sort_by le l) (first_two (key a) (key b) (map key l) h.0))
  sort_by-Permᴰ (Permᴰ.trans d e) h = sort_by-Permᴰ d h ∙ sort_by-Permᴰ e (Permᴰ-Distinct d h)
