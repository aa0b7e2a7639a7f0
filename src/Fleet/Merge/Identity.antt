-- ===== src/Fleet/Merge/Identity.antt =====
-- `_merge_identity_items` of fleet/merge.py: what it returns and when.
use yoinkc.Base.{
  ℕ, ◌≤◌, String, ◌≡◌, true, some, List, [], ◌∷◌, map, arith, leb, length, any, All, All-imp,
  contains, Distinct, string_eq, ok, is_ok,
}
use yoinkc.Base.Dict.{values, upsert}
use yoinkc.Schema.{FleetPrevalence}
use yoinkc.Fleet.Item.{Item}
use yoinkc.Fleet.Prevalence.{absorb_snapshots, prevalence_include}
use yoinkc.Fleet.Merge.{fresh, again, finish, merge_identity_items}
use yoinkc.Fleet.Merge.Seen.{
  hosts_of, length-hosts_of-le, is_ok-absorb_snapshots, absorb_snapshots_succeeds,
}
use yoinkc.Fleet.Merge.Counts.{
  IsPrevalent, IsStable, finished-IsPrevalent, finished-Distinct, contains-finished, merged_seen,
}

module _ {A : Type 0} ⦃i : Item A⦄ (key_fn : A → String) (all_items : List (List A))
    (total min_prevalence : ℕ) (host_names : List String) where
  -- If the key does not depend on what the merge writes and the merge succeeds, the prevalence of each item
  -- of the result lists the hosts that have an item with its key, in order and as often as they have one,
  -- and counts them, and the item is included exactly if the count is at least `min_prevalence` percent
  -- of `total`.
  pub merge_identity_items-IsPrevalent :
      (merged : List A)
      → IsStable i key_fn
      → merge_identity_items all_items key_fn total min_prevalence host_names ≡ ok merged
      → All
          (λ item.
            IsPrevalent i
              (hosts_of key_fn (key_fn item) all_items host_names)
              total
              min_prevalence
              item)
          merged
  unfolding merge_identity_items
  merge_identity_items-IsPrevalent merged stable h =
      let (seen, filled, done) =
        merged_seen key_fn total min_prevalence all_items host_names merged h in
      rw done
        (finished-IsPrevalent key_fn stable total min_prevalence all_items host_names seen filled)

  -- If the key does not depend on what the merge writes and the merge succeeds, the keys of the result are
  -- distinct, and they are the keys of the items of all hosts.
  pub merge_identity_items-keys :
      (merged : List A)
      → IsStable i key_fn
      → merge_identity_items all_items key_fn total min_prevalence host_names ≡ ok merged
      → Distinct (map key_fn merged)
        × ((k : String)
            → contains (map key_fn merged) k
              ≡ any (λ items. contains (map key_fn items) k) all_items)
  unfolding merge_identity_items
  merge_identity_items-keys merged stable h =
      let (seen, filled, done) =
        merged_seen key_fn total min_prevalence all_items host_names merged h in
      rw done (
        finished-Distinct key_fn stable total min_prevalence all_items host_names seen filled,
        contains-finished key_fn stable total min_prevalence all_items host_names seen filled,
      )

  -- If the key does not depend on what the merge writes, no host lists a key twice and the merge succeeds,
  -- each item of the result has a prevalence, whose count is at most the number of snapshots.
  pub merge_identity_items-count-le :
      (merged : List A)
      → IsStable i key_fn
      → All (λ items. Distinct (map key_fn items)) all_items
      → merge_identity_items all_items key_fn total min_prevalence host_names ≡ ok merged
      → All
          (λ item. (f : FleetPrevalence) × (i.fleet item ≡ some f) × (f.count ≤ length all_items))
          merged
  merge_identity_items-count-le merged stable once h =
      All-imp _ _ merged
        (λ item p.
          (_, p.counted, length-hosts_of-le key_fn (key_fn item) all_items host_names once))
        (merge_identity_items-IsPrevalent merged stable h)

  -- The merge succeeds exactly if there is a name for each snapshot.
  pub is_ok-merge_identity_items :
      is_ok (merge_identity_items all_items key_fn total min_prevalence host_names)
      ≡ leb (length all_items) (length host_names)
  unfolding merge_identity_items
  is_ok-merge_identity_items =
      let filled = absorb_snapshots key_fn fresh again all_items host_names [] in
      ground (arith, is_ok-absorb_snapshots key_fn all_items host_names [])

  pub merge_identity_items-succeeds :
      length all_items ≤ length host_names
      → (merged : List A) × (merge_identity_items all_items key_fn total min_prevalence host_names
          ≡ ok merged)
  unfolding merge_identity_items
  merge_identity_items-succeeds h =
      let (seen, filled) = absorb_snapshots_succeeds key_fn all_items host_names [] h in
      (map (finish total min_prevalence) (values seen), rw filled)

-- Two items of one host with one key count as two hosts: of two hosts, one that lists the key twice and
-- one that does not list it, the item is included at a threshold of 100 percent.
pub merge_identity_items-counts_twice :
    {A : Type 0} ⦃i : Item A⦄ (key_fn : A → String) (a b : A) (host other : String)
    → key_fn a ≡ key_fn b
    → (item : A) × (merge_identity_items ((a ∷ b ∷ []) ∷ [] ∷ []) key_fn 2 100 (host ∷ other ∷ [])
        ≡ ok (item ∷ []))
      × (i.include item ≡ true)
unfolding merge_identity_items upsert prevalence_include
merge_identity_items-counts_twice ⦃i⦄ key_fn a b host other h = (
  finish 2 100 (record { item = a; hosts = host ∷ host ∷ [] }),
  ground arith,
  i.include-set_include true _,
)
