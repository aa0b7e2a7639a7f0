-- ===== src/Fleet/Merge/Counts.antt =====
-- What the merges of fleet/merge.py say of each item: who has it, and whether it is included.
use yoinkc.Base.{
  ℕ, ◌*◌, String, ◌≡◌, ◌∙◌, Bool, Option, some, List, [], map, arith, leb, length, any, All,
  All-map, contains, Distinct, Eq, string_eq, pair_eq, ok, ◌>>=◌, returned_by_call,
}
use mathlib.Core.List.{map-map}
use yoinkc.Base.Dict.{Dict, lookup, keys, values, All-values, All-entries, map-values}
use yoinkc.Schema.{FleetPrevalence}
use yoinkc.Fleet.Item.{Item}
use yoinkc.Fleet.Prevalence.{Entry, prevalence_include, absorb_snapshots}
use yoinkc.Fleet.Merge.{fresh, again, finish}
use yoinkc.Fleet.Merge.Seen.{
  hosts_of, nil-IsKeyed, hosts_at-absorb_snapshots, IsKeyed, absorb_snapshots-IsKeyed,
  contains-keys-absorb_snapshots,
}

-- The prevalence of an item counts its hosts, and the item is included exactly if they are at least
-- `min_prevalence` percent of `total`.
pub record IsPrevalent {A : Type 0} (i : Item A) (hosts : List String) (total min_prevalence : ℕ)
    (item : A) : Type 0 where
  pub counted : i.fleet item ≡ some (record { count = length hosts; total = total; hosts = hosts })
  pub decided : i.include item ≡ leb (min_prevalence * total) (length hosts * 100)

-- The attributes that the merge writes are not part of the key.
pub record IsStable {A K : Type 0} (i : Item A) (key_fn : A → K) : Type 0 where
  pub at :
      (b : Bool) (f : Option FleetPrevalence) (a : A)
      → key_fn (i.set_include b (i.set_fleet f a)) ≡ key_fn a

module _ {A K : Type 0} ⦃i : Item A⦄ ⦃e : Eq K⦄ (key_fn : A → K) (stable : IsStable i key_fn) where
  key-finish :
      (total min_prevalence : ℕ) (entry : Entry A)
      → key_fn (finish total min_prevalence entry) ≡ key_fn entry.item
  unfolding finish
  key-finish total min_prevalence entry = stable.at _ _ _

  finish-IsPrevalent :
      (total min_prevalence : ℕ) (entry : Entry A)
      → IsPrevalent i entry.hosts total min_prevalence (finish total min_prevalence entry)
  unfolding finish prevalence_include
  finish-IsPrevalent total min_prevalence entry = record {
    counted = rw (i.fleet-set_include, i.fleet-set_fleet);
    decided = rw i.include-set_include;
  }

  module _ (total min_prevalence : ℕ) (all_items : List (List A)) (host_names : List String)
      (seen : Dict K (Entry A))
      (filled : absorb_snapshots key_fn fresh again all_items host_names [] ≡ ok seen) where
    seen-IsKeyed : IsKeyed key_fn seen
    seen-IsKeyed =
        absorb_snapshots-IsKeyed key_fn all_items host_names [] seen (nil-IsKeyed key_fn) filled

    entry-hosts :
        (k : K) (entry : Entry A)
        → lookup k seen ≡ some entry
        → hosts_of key_fn k all_items host_names ≡ entry.hosts
    unfolding lookup
    entry-hosts k entry found =
        ground
          (arith, found, hosts_at-absorb_snapshots key_fn k all_items host_names [] seen filled)

    entry-key :
        (k : K) (entry : Entry A)
        → lookup k seen ≡ some entry
        → key_fn (finish total min_prevalence entry) ≡ k
    entry-key k entry found =
        ground (arith, found, key-finish total min_prevalence entry, seen-IsKeyed.keyed k)

    pub finished-IsPrevalent :
        All
          (λ item.
            IsPrevalent i
              (hosts_of key_fn (key_fn item) all_items host_names)
              total
              min_prevalence
              item)
          (map (finish total min_prevalence) (values seen))
    finished-IsPrevalent = All-map _ (finish total min_prevalence) (values seen) (
        All-values seen seen-IsKeyed.distinct λ k entry found.
          rw (entry-key k entry found, entry-hosts k entry found)
            (finish-IsPrevalent total min_prevalence entry))

    pub finished-keys : map key_fn (map (finish total min_prevalence) (values seen)) ≡ keys seen
    finished-keys =
        map-map key_fn (finish total min_prevalence) (values seen)
        ∙ map-values (λ entry. key_fn (finish total min_prevalence entry)) seen
            (All-entries _ seen seen-IsKeyed.distinct entry-key)

    pub finished-Distinct : Distinct (map key_fn (map (finish total min_prevalence) (values seen)))
    finished-Distinct = rw finished-keys seen-IsKeyed.distinct

    pub contains-finished :
        (k : K)
        → contains (map key_fn (map (finish total min_prevalence) (values seen))) k
          ≡ any (λ items. contains (map key_fn items) k) all_items
    unfolding contains keys
    contains-finished k =
        rw finished-keys
          (contains-keys-absorb_snapshots key_fn k all_items host_names [] seen filled)

-- The last step of a merge: what it returns comes from the dict that its loops leave.
pub merged_seen :
    {A K : Type 0} ⦃i : Item A⦄ ⦃e : Eq K⦄ (key_fn : A → K) (total min_prevalence : ℕ)
    (all_items : List (List A)) (host_names : List String) (merged : List A)
    → (do
      seen ← absorb_snapshots key_fn fresh again all_items host_names []
      ok (map (finish total min_prevalence) (values seen)))
      ≡ ok merged
    → (seen : Dict K (Entry A)) × (absorb_snapshots key_fn fresh again all_items host_names []
        ≡ ok seen)
      × (merged ≡ map (finish total min_prevalence) (values seen))
merged_seen key_fn total min_prevalence all_items host_names merged h =
    returned_by_call (λ seen. map (finish total min_prevalence) (values seen))
      (absorb_snapshots key_fn fresh again all_items host_names []) merged h
