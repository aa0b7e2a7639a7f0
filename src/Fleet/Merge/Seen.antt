-- ===== src/Fleet/Merge/Seen.antt =====
-- What the dict `seen` of a merge holds after its loops: for each key the hosts that list it.
use yoinkc.Base.{
  ◌≤◌, String, ◌≡◌, refl, false, ◌||◌, Option, none, some, List, [], ◌∷◌, ◌++◌, map, arith, leb,
  length, any, All, contains, Distinct, Eq, ◌==◌, ok, is_ok, if◌then◌else◌, length-append,
}
use mathlib.Core.List.{append-nil, append_assoc}
use yoinkc.Base.Dict.{
  Dict, lookup, upsert, updated, keys, lookup-upsert, contains-keys-upsert, upsert-Distinct,
}
use yoinkc.Fleet.Prevalence.{Entry, absorb_items, absorb_snapshots}
use yoinkc.Fleet.Merge.{fresh, again}

module _ {A K : Type 0} ⦃e : Eq K⦄ (key_fn : A → K) where
  -- One host's name for each of its items with the key.
  unfoldable pub hosts_in : K → String → List A → List String
  hosts_in k host [] = []
  hosts_in k host (x ∷ items) =
      let rest = hosts_in k host items in if k == key_fn x then host ∷ rest else rest

  -- The hosts of a key, in the order of the snapshots.
  unfoldable pub hosts_of : K → List (List A) → List String → List String
  unfolding hosts_in
  hosts_of k (items ∷ all_items) (host ∷ host_names) =
      hosts_in k host items ++ hosts_of k all_items host_names
  hosts_of k _ _ = []

  abbrev pub hosts_at : Option (Entry A) → List String
  hosts_at none = []
  hosts_at (some entry) = entry.hosts

  abbrev absorb : String → List A → Dict K (Entry A) → Dict K (Entry A)
  absorb = absorb_items key_fn fresh again

  hosts_at-updated :
      (host : String) (x : A) (o : Option (Entry A))
      → (updated (fresh host x) (again host x) o).hosts ≡ hosts_at o ++ (host ∷ [])
  hosts_at-updated host x none = refl
  hosts_at-updated host x (some entry) = refl

  hosts_at-absorb :
      (k : K) (host : String) (items : List A) (seen : Dict K (Entry A))
      → hosts_at (lookup k (absorb host items seen))
        ≡ hosts_at (lookup k seen) ++ hosts_in k host items
  unfolding absorb_items hosts_in
  hosts_at-absorb k host [] seen = rw append-nil
  hosts_at-absorb k host (x ∷ items) seen =
      let seen' = upsert (key_fn x) (fresh host x) (again host x) seen in
      ground (
        arith,
        hosts_at-absorb k host items seen',
        lookup-upsert k (key_fn x) (fresh host x) (again host x) seen,
        hosts_at-updated host x (lookup (key_fn x) seen),
        append_assoc (hosts_at (lookup k seen)) (host ∷ []) (hosts_in k host items),
      )

  -- After all snapshots the entry of a key has the hosts of the key.
  pub hosts_at-absorb_snapshots :
      (k : K) (all_items : List (List A)) (host_names : List String) (seen seen' : Dict K (Entry A))
      → absorb_snapshots key_fn fresh again all_items host_names seen ≡ ok seen'
      → hosts_at (lookup k seen') ≡ hosts_at (lookup k seen) ++ hosts_of k all_items host_names
  unfolding absorb_snapshots hosts_of
  hosts_at-absorb_snapshots k [] host_names seen seen' h = rw append-nil (ground arith)
  hosts_at-absorb_snapshots k (items ∷ all_items) [] seen seen' h = cc
  hosts_at-absorb_snapshots k (items ∷ all_items) (host ∷ host_names) seen seen' h = cc (
    hosts_at-absorb_snapshots k all_items host_names (absorb host items seen) seen' h,
    hosts_at-absorb k host items seen,
    append_assoc (hosts_at (lookup k seen)) (hosts_in k host items)
        (hosts_of k all_items host_names),
  )

  abbrev pub KeyedAt : K → Option (Entry A) → Type 0
  KeyedAt k none = Unit
  KeyedAt k (some entry) = key_fn entry.item ≡ k

  updated-KeyedAt :
      (host : String) (x : A) (o : Option (Entry A))
      → KeyedAt (key_fn x) o
      → key_fn (updated (fresh host x) (again host x) o).item ≡ key_fn x
  updated-KeyedAt host x none h = refl
  updated-KeyedAt host x (some entry) h = h

  -- No key stands twice, and an entry holds an item with its key.
  pub record IsKeyed (seen : Dict K (Entry A)) : Type 0 where
    pub distinct : Distinct (keys seen)
    pub keyed : (k : K) → KeyedAt k (lookup k seen)

  pub nil-IsKeyed : IsKeyed []
  unfolding keys lookup
  nil-IsKeyed = record { distinct = tt; keyed = λ k. tt }

  upsert-IsKeyed :
      (host : String) (x : A) (seen : Dict K (Entry A))
      → IsKeyed seen
      → IsKeyed (upsert (key_fn x) (fresh host x) (again host x) seen)
  upsert-IsKeyed host x seen v = record {
    distinct = upsert-Distinct (key_fn x) (fresh host x) (again host x) seen v.distinct;
    keyed = λ k. rw lookup-upsert (
        ground
          (arith, v.keyed k, updated-KeyedAt host x (lookup (key_fn x) seen) (v.keyed (key_fn x))));
  }

  absorb-IsKeyed :
      (host : String) (items : List A) (seen : Dict K (Entry A))
      → IsKeyed seen
      → IsKeyed (absorb host items seen)
  unfolding absorb_items
  absorb-IsKeyed host [] seen v = v
  absorb-IsKeyed host (x ∷ items) seen v =
      absorb-IsKeyed host items (upsert (key_fn x) (fresh host x) (again host x) seen)
        (upsert-IsKeyed host x seen v)

  pub absorb_snapshots-IsKeyed :
      (all_items : List (List A)) (host_names : List String) (seen seen' : Dict K (Entry A))
      → IsKeyed seen
      → absorb_snapshots key_fn fresh again all_items host_names seen ≡ ok seen'
      → IsKeyed seen'
  unfolding absorb_snapshots
  absorb_snapshots-IsKeyed [] host_names seen seen' v h = ground arith
  absorb_snapshots-IsKeyed (items ∷ all_items) [] seen seen' v h = cc
  absorb_snapshots-IsKeyed (items ∷ all_items) (host ∷ host_names) seen seen' v h =
      absorb_snapshots-IsKeyed all_items host_names (absorb host items seen) seen'
        (absorb-IsKeyed host items seen v) h

  contains-keys-absorb :
      (k : K) (host : String) (items : List A) (seen : Dict K (Entry A))
      → contains (keys (absorb host items seen)) k
        ≡ (contains (keys seen) k || contains (map key_fn items) k)
  unfolding absorb_items contains
  contains-keys-absorb k host [] seen = ground arith
  contains-keys-absorb k host (x ∷ items) seen =
      let seen' = upsert (key_fn x) (fresh host x) (again host x) seen in
      ground (
        arith,
        contains-keys-absorb k host items seen',
        contains-keys-upsert k (key_fn x) (fresh host x) (again host x) seen,
      )

  pub contains-keys-absorb_snapshots :
      (k : K) (all_items : List (List A)) (host_names : List String) (seen seen' : Dict K (Entry A))
      → absorb_snapshots key_fn fresh again all_items host_names seen ≡ ok seen'
      → contains (keys seen') k
        ≡ (contains (keys seen) k || any (λ items. contains (map key_fn items) k) all_items)
  unfolding absorb_snapshots any
  contains-keys-absorb_snapshots k [] host_names seen seen' h = ground arith
  contains-keys-absorb_snapshots k (items ∷ all_items) [] seen seen' h = cc
  contains-keys-absorb_snapshots k (items ∷ all_items) (host ∷ host_names) seen seen' h = ground (
    arith,
    contains-keys-absorb_snapshots k all_items host_names (absorb host items seen) seen' h,
    contains-keys-absorb k host items seen,
  )

  -- With a key at most once on each host, a key has at most as many hosts as there are snapshots.
  hosts_in_of_absent :
      (k : K) (host : String) (items : List A)
      → contains (map key_fn items) k ≡ false
      → hosts_in k host items ≡ []
  unfolding hosts_in contains
  hosts_in_of_absent k host [] h = refl
  hosts_in_of_absent k host (x ∷ items) h = ground (arith, hosts_in_of_absent k host items)

  length-hosts_in-le :
      (k : K) (host : String) (items : List A)
      → Distinct (map key_fn items)
      → length (hosts_in k host items) ≤ 1
  unfolding hosts_in
  length-hosts_in-le k host [] h = omega arith
  length-hosts_in-le k host (x ∷ items) h =
      ground (arith, length-hosts_in-le k host items h.1, hosts_in_of_absent k host items)

  pub length-hosts_of-le :
      (k : K) (all_items : List (List A)) (host_names : List String)
      → All (λ items. Distinct (map key_fn items)) all_items
      → length (hosts_of k all_items host_names) ≤ length all_items
  unfolding hosts_of
  length-hosts_of-le k (items ∷ all_items) (host ∷ host_names) h = omega (
    arith,
    length-append (hosts_in k host items) (hosts_of k all_items host_names),
    length-hosts_in-le k host items h.0,
    length-hosts_of-le k all_items host_names h.1,
  )
  length-hosts_of-le k [] host_names h = omega arith
  length-hosts_of-le k (items ∷ all_items) [] h = omega arith

  pub absorb_snapshots_succeeds :
      (all_items : List (List A)) (host_names : List String) (seen : Dict K (Entry A))
      → length all_items ≤ length host_names
      → (seen' : Dict K (Entry A)) × (absorb_snapshots key_fn fresh again all_items host_names seen
          ≡ ok seen')
  unfolding absorb_snapshots
  absorb_snapshots_succeeds [] host_names seen h = (seen, refl)
  absorb_snapshots_succeeds (items ∷ all_items) [] seen h = absurd (omega arith)
  absorb_snapshots_succeeds (items ∷ all_items) (host ∷ host_names) seen h =
      absorb_snapshots_succeeds all_items host_names (absorb host items seen) (omega arith)

  pub is_ok-absorb_snapshots :
      (all_items : List (List A)) (host_names : List String) (seen : Dict K (Entry A))
      → is_ok (absorb_snapshots key_fn fresh again all_items host_names seen)
        ≡ leb (length all_items) (length host_names)
  unfolding absorb_snapshots
  is_ok-absorb_snapshots [] host_names seen = ground arith
  is_ok-absorb_snapshots (items ∷ all_items) [] seen = ground arith
  is_ok-absorb_snapshots (items ∷ all_items) (host ∷ host_names) seen =
      ground (arith, is_ok-absorb_snapshots all_items host_names (absorb host items seen))
