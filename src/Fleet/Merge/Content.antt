-- ===== src/Fleet/Merge/Content.antt =====
-- `_merge_content_items` of fleet/merge.py: a pair of an identity and a variant is one item.
use yoinkc.Base.{
  ℕ, ◌≤◌, String, ◌≡◌, List, [], map, length, any, All, contains, Distinct, string_eq, pair_eq, ok,
}
use yoinkc.Base.Dict.{values}
use yoinkc.Fleet.Item.{Item}
use yoinkc.Fleet.Merge.{finish, merge_content_items}
use yoinkc.Fleet.Merge.Seen.{hosts_of, absorb_snapshots_succeeds}
use yoinkc.Fleet.Merge.Counts.{
  IsPrevalent, IsStable, finished-IsPrevalent, finished-Distinct, contains-finished, merged_seen,
}

-- The key of `seen`.
abbrev pub variant_key : {A : Type 0} → (A → String) → (A → String) → A → String × String
variant_key identity_fn variant_fn item = (identity_fn item, variant_fn item)

module _ {A : Type 0} ⦃i : Item A⦄ (identity_fn variant_fn : A → String) (all_items : List (List A))
    (total min_prevalence : ℕ) (host_names : List String) where
  abbrev key : A → String × String
  key = variant_key identity_fn variant_fn

  -- If the identity and the variant do not depend on what the merge writes and the merge succeeds, the
  -- prevalence of each item of the result lists and counts the hosts that have an item with its identity
  -- and its variant, and the item is included exactly if the count is at least `min_prevalence` percent
  -- of `total`.
  pub merge_content_items-IsPrevalent :
      (merged : List A)
      → IsStable i (variant_key identity_fn variant_fn)
      → merge_content_items all_items identity_fn variant_fn total min_prevalence host_names
        ≡ ok merged
      → All
          (λ item.
            IsPrevalent i
              (hosts_of
                (variant_key identity_fn variant_fn)
                (identity_fn item, variant_fn item)
                all_items
                host_names)
              total
              min_prevalence
              item)
          merged
  unfolding merge_content_items
  merge_content_items-IsPrevalent merged stable h =
      let (seen, filled, done) =
        merged_seen key total min_prevalence all_items host_names merged h in
      rw done
        (finished-IsPrevalent key stable total min_prevalence all_items host_names seen filled)

  -- If the identity and the variant do not depend on what the merge writes and the merge succeeds, no pair of
  -- an identity and a variant stands twice in the result, and a pair stands there exactly if a host has
  -- an item with it.
  pub merge_content_items-keys :
      (merged : List A)
      → IsStable i (variant_key identity_fn variant_fn)
      → merge_content_items all_items identity_fn variant_fn total min_prevalence host_names
        ≡ ok merged
      → Distinct (map (variant_key identity_fn variant_fn) merged)
        × ((k : String × String)
            → contains (map (variant_key identity_fn variant_fn) merged) k
              ≡ any
                  (λ items. contains (map (variant_key identity_fn variant_fn) items) k)
                  all_items)
  unfolding merge_content_items
  merge_content_items-keys merged stable h =
      let (seen, filled, done) =
        merged_seen key total min_prevalence all_items host_names merged h in
      rw done (
        finished-Distinct key stable total min_prevalence all_items host_names seen filled,
        contains-finished key stable total min_prevalence all_items host_names seen filled,
      )

  pub merge_content_items-succeeds :
      length all_items ≤ length host_names
      → (merged : List A) × (merge_content_items all_items identity_fn variant_fn total
            min_prevalence host_names
          ≡ ok merged)
  unfolding merge_content_items
  merge_content_items-succeeds h =
      let (seen, filled) = absorb_snapshots_succeeds key all_items host_names [] h in
      (map (finish total min_prevalence) (values seen), rw filled)
