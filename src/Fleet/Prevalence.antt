-- ===== src/Fleet/Prevalence.antt =====
-- `_prevalence_include` of fleet/merge.py, and the loop that its merge functions share: a dict from
-- keys to an entry, filled in the order of the hosts and of their items.
use yoinkc.Base.{ℕ, ◌*◌, String, Bool, List, [], ◌∷◌, leb, Eq, Result, ok, raise, index_error}
use yoinkc.Base.Dict.{Dict, upsert}

-- The item of the first host that has the key, and the hosts that have it.
pub record Entry (A : Type 0) : Type 0 where
  pub item : A
  pub hosts : List String

unfoldable pub prevalence_include : ℕ → ℕ → ℕ → Bool
prevalence_include count total min_prevalence = leb (min_prevalence * total) (count * 100)

module _ {A K E : Type 0} ⦃k : Eq K⦄ (key_fn : A → K) (fresh : String → A → E)
    (again : String → A → E → E) where
  -- `for item in items`
  unfoldable pub absorb_items : String → List A → Dict K E → Dict K E
  absorb_items hostname [] seen = seen
  absorb_items hostname (item ∷ items) seen =
      absorb_items hostname items
        (upsert (key_fn item) (fresh hostname item) (again hostname item) seen)

  -- `for snapshot_idx, items in enumerate(all_items)`, with `host_names[snapshot_idx]`
  unfoldable pub absorb_snapshots : List (List A) → List String → Dict K E → Result (Dict K E)
  unfolding absorb_items
  absorb_snapshots [] host_names seen = ok seen
  absorb_snapshots (items ∷ all_items) [] seen = raise index_error
  absorb_snapshots (items ∷ all_items) (hostname ∷ host_names) seen =
      absorb_snapshots all_items host_names (absorb_items hostname items seen)
