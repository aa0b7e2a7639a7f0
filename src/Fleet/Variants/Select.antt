-- ===== src/Fleet/Variants/Select.antt =====
-- What `_auto_select_variants` does to the variants of one path.
use yoinkc.Base.{
  ℕ, ◌≤◌, ◌≡◌, ◌≢◌, refl, ◌∙◌, Bool, true, false, not, List, [], ◌∷◌, ◌++◌, map, arith, All,
  All-imp, Bool-cases, inl, inr, ==_refl, keep_if, leb, leb→le, ◌==◌, nat_eq,
}
use yoinkc.Base.Sort.{sort_by, insert_by}
use yoinkc.Base.Sort.Laws.{Ascends, sort_by-Ascends, All-sort_by}
use yoinkc.Fleet.Variants.{
  Runtime, Variant, Ref, select_sorted, select_group, count_of, write, mark_tied, mark_first,
  digest_leb,
}

module _ {A : Type 0} ⦃x : Variant A⦄ where
  -- A variant that is included, with the greatest count.
  abbrev pub IsWinner : ℕ → Ref A → Type 0
  IsWinner top v = (x.item.include v.1 ≡ true) × (count_of v ≡ top)

  -- A variant that is not included, with at most that count.
  abbrev pub IsLoser : ℕ → Ref A → Type 0
  IsLoser top v = (x.item.include v.1 ≡ false) × (count_of v ≤ top)

  -- The first variant wins and the others lose.
  pub record HasWinner (top : ℕ) (selected : List (Ref A)) : Type 0 where
    pub winner : Ref A
    pub losers : List (Ref A)
    pub selected-split : selected ≡ winner ∷ losers
    pub wins : IsWinner top winner
    pub lose : All (IsLoser top) losers

  count_of-mark_tied : (won : Bool) (v : Ref A) → count_of (write (mark_tied won) v) ≡ count_of v
  count_of-mark_tied won v = rw (x.item.fleet-set_include, x.fleet-set_tie_winner, x.fleet-set_tie)

  tied-wins : (top : ℕ) (v : Ref A) → count_of v ≡ top → IsWinner top (write (mark_tied true) v)
  tied-wins top v h = (x.item.include-set_include _ _, count_of-mark_tied true v ∙ h)

  tied-loses : (top : ℕ) (v : Ref A) → count_of v ≡ top → IsLoser top (write (mark_tied false) v)
  tied-loses top v h = (x.item.include-set_include _ _, omega (arith, count_of-mark_tied false v))

  loses :
      (top : ℕ) (v : Ref A) → count_of v ≤ top → IsLoser top (write (x.item.set_include false) v)
  loses top v h = (x.item.include-set_include _ _, rw x.item.fleet-set_include h)

  All-loses :
      (top : ℕ) (vs : List (Ref A))
      → All (λ v. count_of v ≤ top) vs
      → All (IsLoser top) (map (write (x.item.set_include false)) vs)
  All-loses top [] h = tt
  All-loses top (v ∷ vs) h = (loses top v h.0, All-loses top vs h.1)

  All-tied-loses :
      (top : ℕ) (vs : List (Ref A))
      → All (λ v. count_of v ≡ top) vs
      → All (IsLoser top) (map (write (mark_tied false)) vs)
  All-tied-loses top [] h = tt
  All-tied-loses top (v ∷ vs) h = (tied-loses top v h.0, All-tied-loses top vs h.1)

  All-append : (P : Ref A → Type 0) (vs ws : List (Ref A)) → All P vs → All P ws → All P (vs ++ ws)
  All-append P [] ws h k = k
  All-append P (v ∷ vs) ws h k = (h.0, All-append P vs ws h.1 k)

  -- The variants that are tied at the top, and those that are not.
  All-tied :
      (top : ℕ) (vs : List (Ref A))
      → All (λ v. count_of v ≡ top) (keep_if (λ v. count_of v == top) vs)
  unfolding keep_if nat_eq
  All-tied top [] = tt
  All-tied top (v ∷ vs) = ground (arith, All-tied top vs)

  All-kept :
      (P : Ref A → Type 0) (p : Ref A → Bool) (vs : List (Ref A)) → All P vs → All P (keep_if p vs)
  unfolding keep_if
  All-kept P p [] h = tt
  All-kept P p (v ∷ vs) h = ground (arith, All-kept P p vs h.1)

  mark_first-HasWinner :
      (top : ℕ) (tied losers : List (Ref A))
      → tied ≢ []
      → All (λ v. count_of v ≡ top) tied
      → All (IsLoser top) losers
      → HasWinner top (mark_first tied ++ losers)
  mark_first-HasWinner top [] losers n h k = elim (n refl) [ ]
  mark_first-HasWinner top (v ∷ vs) losers n h k = record {
    winner = write (mark_tied true) v;
    losers = map (write (mark_tied false)) vs ++ losers;
    selected-split = refl;
    wins = tied-wins top v h.0;
    lose =
        All-append (IsLoser top) (map (write (mark_tied false)) vs) losers
          (All-tied-loses top vs h.1) k;
  }

  insert_by-nonempty :
      (le : Ref A → Ref A → Bool) (v : Ref A) (vs : List (Ref A)) → insert_by le v vs ≢ []
  unfolding insert_by
  insert_by-nonempty le v [] = cc
  insert_by-nonempty le v (w ∷ vs) = ground arith

  -- The first variant is among those that are tied with it.
  tied-nonempty :
      (le : Ref A → Ref A → Bool) (v : Ref A) (vs : List (Ref A))
      → sort_by le (keep_if (λ u. count_of u == count_of v) (v ∷ vs)) ≢ []
  unfolding keep_if sort_by
  tied-nonempty le v vs =
      rw (==_refl (count_of v))
        (insert_by-nonempty le v (sort_by le (keep_if (λ u. count_of u == count_of v) vs)))

  sort_by-nonempty :
      (le : Ref A → Ref A → Bool) (v : Ref A) (vs : List (Ref A)) → sort_by le (v ∷ vs) ≢ []
  unfolding sort_by
  sort_by-nonempty le v vs = insert_by-nonempty le v (sort_by le vs)

  abbrev pub by_count : Ref A → Ref A → Bool
  by_count v w = leb (count_of w) (count_of v)

  below-top :
      (v : Ref A) (vs : List (Ref A))
      → Ascends by_count (v ∷ vs)
      → All (λ u. count_of u ≤ count_of v) (v ∷ vs)
  below-top v vs h = (
    omega arith,
    All-imp (λ u. by_count v u ≡ true) (λ u. count_of u ≤ count_of v) vs (λ u. leb→le _ _) h.0,
  )

  tie-HasWinner :
      (r : Runtime) (v : Ref A) (vs : List (Ref A))
      → All (λ u. count_of u ≤ count_of v) (v ∷ vs)
      → HasWinner (count_of v) (
          mark_first (sort_by (digest_leb r) (keep_if (λ u. count_of u == count_of v) (v ∷ vs)))
          ++ map
              (write (x.item.set_include false))
              (keep_if (λ u. not (count_of u == count_of v)) (v ∷ vs)))
  tie-HasWinner r v vs h =
      mark_first-HasWinner (count_of v)
        (sort_by (digest_leb r) (keep_if (λ u. count_of u == count_of v) (v ∷ vs)))
        (map (write (x.item.set_include false))
          (keep_if (λ u. not (count_of u == count_of v)) (v ∷ vs)))
        (tied-nonempty (digest_leb r) v vs)
        (All-sort_by (digest_leb r) (λ u. count_of u ≡ count_of v) _
          (All-tied (count_of v) (v ∷ vs)))
        (All-loses (count_of v) _ (All-kept (λ u. count_of u ≤ count_of v) _ (v ∷ vs) h))

  clear-HasWinner :
      (v : Ref A) (vs : List (Ref A))
      → All (λ u. count_of u ≤ count_of v) vs
      → HasWinner
          (count_of v)
          (write (x.item.set_include true) v ∷ map (write (x.item.set_include false)) vs)
  clear-HasWinner v vs h = record {
    winner = write (x.item.set_include true) v;
    losers = map (write (x.item.set_include false)) vs;
    selected-split = refl;
    wins = (x.item.include-set_include _ _, rw x.item.fleet-set_include refl);
    lose = All-loses (count_of v) vs h;
  }

  select_sorted-HasWinner :
      (r : Runtime) (v : Ref A) (vs : List (Ref A))
      → Ascends by_count (v ∷ vs)
      → HasWinner (count_of v) (select_sorted r (v ∷ vs))
  unfolding select_sorted
  select_sorted-HasWinner r v [] h = clear-HasWinner v [] tt
  select_sorted-HasWinner r v (w ∷ vs) h = elim (Bool-cases (count_of v == count_of w)) [
    | inl tie ↦ rw tie (tie-HasWinner r v (w ∷ vs) (below-top v (w ∷ vs) h))
    | inr clear ↦ rw clear (clear-HasWinner v (w ∷ vs) (below-top v (w ∷ vs) h).1)
  ]

  by_count-Ascends : (vs : List (Ref A)) → Ascends by_count (sort_by by_count vs)
  by_count-Ascends = sort_by-Ascends by_count (λ v w h. ground arith) (λ u v w h k. ground arith)

  select-HasWinner :
      (r : Runtime) (us : List (Ref A))
      → us ≢ []
      → Ascends by_count us
      → (top : ℕ) × All (λ u. count_of u ≤ top) us × HasWinner top (select_sorted r us)
  select-HasWinner r [] n h = elim (n refl) [ ]
  select-HasWinner r (v ∷ vs) n h = (count_of v, below-top v vs h, select_sorted-HasWinner r v vs h)

  All-insert_by-back :
      (P : Ref A → Type 0) (le : Ref A → Ref A → Bool) (v : Ref A) (vs : List (Ref A))
      → All P (insert_by le v vs)
      → P v × All P vs
  unfolding insert_by
  All-insert_by-back P le v [] h = (h.0, tt)
  All-insert_by-back P le v (w ∷ vs) h = elim (Bool-cases (le v w)) [
    | inl before ↦ rw before at h
    | inr behind ↦
        let kept = rw behind at h in
        let (p, rest) = All-insert_by-back P le v vs kept.1 in (p, (kept.0, rest))
  ]

  All-sort_by-back :
      (P : Ref A → Type 0) (le : Ref A → Ref A → Bool) (vs : List (Ref A))
      → All P (sort_by le vs)
      → All P vs
  unfolding sort_by
  All-sort_by-back P le [] h = tt
  All-sort_by-back P le (v ∷ vs) h =
      let (p, rest) = All-insert_by-back P le v (sort_by le vs) h in
      (p, All-sort_by-back P le vs rest)

  pub select_group-HasWinner :
      (r : Runtime) (v : Ref A) (vs : List (Ref A))
      → (top : ℕ) × All (λ u. count_of u ≤ top) (v ∷ vs) × HasWinner top (select_group r (v ∷ vs))
  unfolding select_group
  select_group-HasWinner r v vs =
      let (top, most, winner) =
        select-HasWinner r (sort_by by_count (v ∷ vs)) (sort_by-nonempty by_count v vs)
          (by_count-Ascends (v ∷ vs)) in
      (top, All-sort_by-back (λ u. count_of u ≤ top) by_count (v ∷ vs) most, winner)
