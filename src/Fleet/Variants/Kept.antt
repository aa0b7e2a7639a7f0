-- ===== src/Fleet/Variants/Kept.antt =====
-- `_auto_select_variants` on the variants of one path: it keeps each object, and selects one.
use yoinkc.Base.{
  ℕ, ◌+◌, ◌≤◌, ◌≡◌, refl, ◌∙◌, Bool, false, not, List, [], ◌∷◌, ◌++◌, map, arith, All, keep_if,
  ◌==◌, nat_eq, if◌then◌else◌,
}
use yoinkc.Base.Sort.{sort_by, insert_by}
use yoinkc.Fleet.Variants.{
  Runtime, Variant, Ref, select_sorted, select_group, count_of, write, mark_tied, mark_first,
  digest_leb,
}
use yoinkc.Fleet.Variants.Select.{HasWinner, by_count, select_group-HasWinner}

module _ {A : Type 0} where
  -- How often the object at a position of the items stands in a list.
  abbrev pub held : ℕ → List (Ref A) → ℕ
  held n [] = 0
  held n (v ∷ vs) = (if n == v.0 then 1 else 0) + held n vs

  held-append : (n : ℕ) (vs ws : List (Ref A)) → held n (vs ++ ws) ≡ held n vs + held n ws
  held-append n [] ws = omega arith
  held-append n (v ∷ vs) ws = omega (arith, held-append n vs ws)

  held-insert_by :
      (n : ℕ) (le : Ref A → Ref A → Bool) (v : Ref A) (vs : List (Ref A))
      → held n (insert_by le v vs) ≡ held n (v ∷ vs)
  unfolding insert_by
  held-insert_by n le v [] = refl
  held-insert_by n le v (w ∷ vs) = ground (arith, held-insert_by n le v vs)

  held-sort_by :
      (n : ℕ) (le : Ref A → Ref A → Bool) (vs : List (Ref A)) → held n (sort_by le vs) ≡ held n vs
  unfolding sort_by
  held-sort_by n le [] = refl
  held-sort_by n le (v ∷ vs) =
      omega (arith, held-insert_by n le v (sort_by le vs), held-sort_by n le vs)

  held-keep_if :
      (n : ℕ) (p : Ref A → Bool) (vs : List (Ref A))
      → held n (keep_if p vs) + held n (keep_if (λ v. not (p v)) vs) ≡ held n vs
  unfolding keep_if
  held-keep_if n p [] = refl
  held-keep_if n p (v ∷ vs) = ground (arith, held-keep_if n p vs)

  module _ ⦃x : Variant A⦄ where
    held-write : (n : ℕ) (f : A → A) (vs : List (Ref A)) → held n (map (write f) vs) ≡ held n vs
    held-write n f [] = refl
    held-write n f (v ∷ vs) = omega (arith, held-write n f vs)

    held-mark_first : (n : ℕ) (vs : List (Ref A)) → held n (mark_first vs) ≡ held n vs
    held-mark_first n [] = refl
    held-mark_first n (v ∷ vs) = omega (arith, held-write n (mark_tied false) vs)

    held-select_sorted :
        (n : ℕ) (r : Runtime) (vs : List (Ref A)) → held n (select_sorted r vs) ≡ held n vs
    unfolding select_sorted
    held-select_sorted n r [] = refl
    held-select_sorted n r (v ∷ []) = refl
    held-select_sorted n r (v ∷ w ∷ vs) =
        let variants = v ∷ w ∷ vs in
        let tied = keep_if (λ u. count_of u == count_of v) variants in
        let others = keep_if (λ u. not (count_of u == count_of v)) variants in
        ground (
          arith,
          held-append n (mark_first (sort_by (digest_leb r) tied))
              (map (write (x.item.set_include false)) others),
          held-mark_first n (sort_by (digest_leb r) tied),
          held-sort_by n (digest_leb r) tied,
          held-write n (x.item.set_include false) others,
          held-keep_if n (λ u. count_of u == count_of v) variants,
          held-write n (x.item.set_include false) (w ∷ vs),
        )

    -- For one or more variants of one path, the selection keeps each object as often as it is given, leaves exactly one included, whose count is
    -- the greatest of all before the selection, and excludes the others, which have at most that count.
    pub select_group-Selects :
        (r : Runtime) (v : Ref A) (vs : List (Ref A))
        → ((n : ℕ) → held n (select_group r (v ∷ vs)) ≡ held n (v ∷ vs))
          × ((top : ℕ) × All (λ u. count_of u ≤ top) (v ∷ vs)
              × HasWinner top (select_group r (v ∷ vs)))
    unfolding select_group
    select_group-Selects r v vs = (
      (λ n. held-select_sorted n r (sort_by by_count (v ∷ vs)) ∙ held-sort_by n by_count (v ∷ vs)),
      select_group-HasWinner r v vs,
    )
