-- ===== src/Fleet/Names/Loop.antt =====
-- `compute_display_names` ends, names every host, and the names that it returns from the loop differ.
use yoinkc.Base.{
  ℕ, zero, suc, ◌+◌, ◌-◌, ◌≤◌, ◌<◌, String, ◌≡◌, ◌≢◌, refl, inl, inr, Bool, true, false, ◌||◌, none,
  some, List, [], ◌∷◌, map, arith, length, Option-cases, ◌∙◌, sym,
}
use yoinkc.Base.Text.{split}
use yoinkc.Fleet.Names.{
  segments_of, labels_for_depths, collisions_of, bump_at, bump_indices, bump_all, disambiguate,
  total_segments, first_depths, number_duplicates, number_groups, number_group, set_label,
  compute_display_names,
}

-- How much the depths can still grow.
slack : List (List String) → List ℕ → ℕ
slack (parts ∷ segments) (depth ∷ depths) = (length parts - depth) + slack segments depths
slack _ _ = 0

one_if : Bool → ℕ
one_if true = 1
one_if false = 0

bump_at-slack :
    (idx : ℕ) (segments : List (List String)) (depths : List ℕ)
    → slack segments (bump_at idx segments depths).0 + one_if (bump_at idx segments depths).1
      ≡ slack segments depths
unfolding bump_at slack one_if
bump_at-slack idx [] depths = refl
bump_at-slack idx (parts ∷ segments) [] = refl
bump_at-slack zero (parts ∷ segments) (depth ∷ depths) = ground arith
bump_at-slack (suc idx) (parts ∷ segments) (depth ∷ depths) =
    ground (arith, bump_at-slack idx segments depths)

-- Either nothing changed, or the slack fell.
bump_indices-slack :
    (segments : List (List String)) (indices : List ℕ) (depths : List ℕ) (changed : Bool)
    → let s = bump_indices segments indices (depths, changed) in
      slack segments s.0 + one_if s.1 ≤ slack segments depths + one_if changed
unfolding bump_indices one_if
bump_indices-slack segments [] depths changed = omega arith
bump_indices-slack segments (idx ∷ indices) depths changed =
    let (depths', grown) = bump_at idx segments depths in
    ground (
      arith,
      bump_indices-slack segments indices depths' (changed || grown),
      bump_at-slack idx segments depths,
    )

bump_all-slack :
    (segments : List (List String)) (collisions : List (List ℕ)) (depths : List ℕ) (changed : Bool)
    → let s = bump_all segments collisions (depths, changed) in
      slack segments s.0 + one_if s.1 ≤ slack segments depths + one_if changed
unfolding bump_all one_if
bump_all-slack segments [] depths changed = omega arith
bump_all-slack segments (indices ∷ collisions) depths changed =
    let s = bump_indices segments indices (depths, changed) in
    ground (
      arith,
      bump_all-slack segments collisions s.0 s.1,
      bump_indices-slack segments indices depths changed,
    )

-- With more fuel than the depths can grow the loop returns.
disambiguate-ne-none :
    (fuel : ℕ) (segments : List (List String)) (depths : List ℕ)
    → slack segments depths < fuel
    → disambiguate fuel segments depths ≢ none
unfolding disambiguate one_if
disambiguate-ne-none zero segments depths h = elim h [ ]
disambiguate-ne-none (suc fuel) segments depths h =
    let found = collisions_of (labels_for_depths segments depths) in
    let s = bump_all segments found (depths, false) in
    ground
      (arith, bump_all-slack segments found depths false, disambiguate-ne-none fuel segments s.0)

slack-le-total :
    (segments : List (List String)) (depths : List ℕ)
    → slack segments depths ≤ total_segments segments
unfolding slack total_segments
slack-le-total (parts ∷ segments) (depth ∷ depths) = omega (arith, slack-le-total segments depths)
slack-le-total [] depths = omega arith
slack-le-total (parts ∷ segments) [] = omega arith

length-set_label :
    (idx : ℕ) (value : String) (labels : List String)
    → length (set_label idx value labels) ≡ length labels
unfolding set_label
length-set_label idx value [] = refl
length-set_label zero value (label ∷ labels) = refl
length-set_label (suc idx) value (label ∷ labels) = omega (arith, length-set_label idx value labels)

length-number_group :
    (segments : List (List String)) (ordinal : ℕ) (indices : List ℕ) (labels : List String)
    → length (number_group segments ordinal indices labels) ≡ length labels
unfolding number_group
length-number_group segments ordinal [] labels = refl
length-number_group segments ordinal (idx ∷ indices) labels =
    length-number_group segments (suc ordinal) indices (set_label idx _ labels)
    ∙ length-set_label idx _ labels

length-number_groups :
    (segments : List (List String)) (groups : List (List ℕ)) (labels : List String)
    → length (number_groups segments groups labels) ≡ length labels
unfolding number_groups
length-number_groups segments [] labels = refl
length-number_groups segments (indices ∷ groups) labels =
    length-number_groups segments groups (number_group segments 1 indices labels)
    ∙ length-number_group segments 1 indices labels

length-bump_at :
    (idx : ℕ) (segments : List (List String)) (depths : List ℕ)
    → length (bump_at idx segments depths).0 ≡ length depths
unfolding bump_at
length-bump_at idx [] depths = refl
length-bump_at idx (parts ∷ segments) [] = refl
length-bump_at zero (parts ∷ segments) (depth ∷ depths) = ground arith
length-bump_at (suc idx) (parts ∷ segments) (depth ∷ depths) =
    omega (arith, length-bump_at idx segments depths)

length-bump_indices :
    (segments : List (List String)) (indices : List ℕ) (depths : List ℕ) (changed : Bool)
    → length (bump_indices segments indices (depths, changed)).0 ≡ length depths
unfolding bump_indices
length-bump_indices segments [] depths changed = refl
length-bump_indices segments (idx ∷ indices) depths changed =
    let (depths', grown) = bump_at idx segments depths in
    length-bump_indices segments indices depths' (changed || grown)
    ∙ length-bump_at idx segments depths

length-bump_all :
    (segments : List (List String)) (collisions : List (List ℕ)) (depths : List ℕ) (changed : Bool)
    → length (bump_all segments collisions (depths, changed)).0 ≡ length depths
unfolding bump_all
length-bump_all segments [] depths changed = refl
length-bump_all segments (indices ∷ collisions) depths changed =
    let s = bump_indices segments indices (depths, changed) in
    length-bump_all segments collisions s.0 s.1
    ∙ length-bump_indices segments indices depths changed

length-labels_for_depths :
    (segments : List (List String)) (depths : List ℕ)
    → length depths ≡ length segments
    → length (labels_for_depths segments depths) ≡ length segments
unfolding labels_for_depths
length-labels_for_depths [] depths h = refl
length-labels_for_depths (parts ∷ segments) (depth ∷ depths) h =
    omega (arith, length-labels_for_depths segments depths (omega arith))
length-labels_for_depths (parts ∷ segments) [] h = absurd (omega arith)

length-disambiguate :
    (fuel : ℕ) (segments : List (List String)) (depths : List ℕ) (labels : List String)
    → length depths ≡ length segments
    → disambiguate fuel segments depths ≡ some labels
    → length labels ≡ length segments
unfolding disambiguate number_duplicates
length-disambiguate zero segments depths labels e h = cc
length-disambiguate (suc fuel) segments depths labels e h =
    let now = labels_for_depths segments depths in
    let found = collisions_of now in
    let s = bump_all segments found (depths, false) in
    let then_labels = labels_for_depths segments s.0 in
    ground (
      arith,
      length-labels_for_depths segments depths e,
      length-bump_all segments found depths false,
      length-labels_for_depths segments s.0,
      length-number_groups segments (collisions_of then_labels) then_labels,
      length-disambiguate fuel segments s.0 labels,
    )

length-map : {A B : Type 0} (f : A → B) (xs : List A) → length (map f xs) ≡ length xs
length-map f [] = refl
length-map f (x ∷ xs) = omega (arith, length-map f xs)

-- The loop of `compute_display_names` returns within its fuel, and there is a name for each host.
pub compute_display_names-total :
    (hostnames : List String)
    → let segments = segments_of hostnames in
      (labels : List String) × (disambiguate
          (suc (total_segments segments))
          segments
          (first_depths hostnames)
        ≡ some labels)
      × (compute_display_names hostnames ≡ labels)
      × (length labels ≡ length hostnames)
unfolding compute_display_names
compute_display_names-total hostnames =
    let segments = segments_of hostnames in
    let depths = first_depths hostnames in
    elim (Option-cases (disambiguate (suc (total_segments segments)) segments depths)) [
      | inl out ↦ absurd (
          disambiguate-ne-none (suc (total_segments segments)) segments depths
            (omega (arith, slack-le-total segments depths)) out)
      | inr (labels, returned) ↦ (
        labels,
        returned,
        rw returned,
        length-disambiguate (suc (total_segments segments)) segments depths labels
              (length-map (λ h. 1) hostnames
                ∙ sym (unfold segments_of in length-map (split 46) hostnames))
              returned
            ∙ (unfold segments_of in length-map (split 46) hostnames),
      )
    ]
