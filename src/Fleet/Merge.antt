-- ===== src/Fleet/Merge.antt =====
-- The list merges of fleet/merge.py.
pub mod Seen
pub mod Counts
pub mod Identity
pub mod Content
use yoinkc.Base.{
  ℕ, String, ◌<>◌, List, [], ◌∷◌, ◌++◌, map, some, length, Eq, ◌==◌, string_eq, pair_eq, Result, ok,
  raise, ◌>>=◌,
}
use yoinkc.Base.Dict.{Dict, values}
use yoinkc.Base.Sort.{unique, sorted}
use yoinkc.Schema.{FleetPrevalence, EnabledModuleStream}
use yoinkc.Fleet.Item.{Item}
use yoinkc.Fleet.Item.Instances.{enabled_module_stream}
use yoinkc.Fleet.Prevalence.{Entry, prevalence_include, absorb_items, absorb_snapshots}

-- {"item": item, "hosts": [hostname]}
abbrev pub fresh : {A : Type 0} → String → A → Entry A
fresh hostname item = record { item = item; hosts = hostname ∷ [] }

-- seen[k]["hosts"].append(hostname)
abbrev pub again : {A : Type 0} → String → A → Entry A → Entry A
again hostname item entry = record { item = entry.item; hosts = entry.hosts ++ (hostname ∷ []) }

-- The body of the loop over `seen.values()`: a copy of the item with its prevalence.
unfoldable pub finish : {A : Type 0} ⦃i : Item A⦄ → ℕ → ℕ → Entry A → A
finish ⦃i⦄ total min_prevalence entry =
    let count = length entry.hosts in
    i.set_include (prevalence_include count total min_prevalence)
      (i.set_fleet (some (record { count = count; total = total; hosts = entry.hosts })) entry.item)

module _ {A : Type 0} ⦃i : Item A⦄ where
  -- `_merge_identity_items`
  unfoldable pub merge_identity_items :
      List (List A) → (A → String) → ℕ → ℕ → List String → Result (List A)
  unfolding absorb_snapshots finish values
  merge_identity_items all_items key_fn total min_prevalence host_names = do
    seen ← absorb_snapshots key_fn fresh again all_items host_names []
    ok (map (finish total min_prevalence) (values seen))

  -- `_merge_content_items`: each pair of an identity and a variant is an entry.
  unfoldable pub merge_content_items :
      List (List A) → (A → String) → (A → String) → ℕ → ℕ → List String → Result (List A)
  unfolding absorb_snapshots finish values
  merge_content_items all_items identity_fn variant_fn total min_prevalence host_names = do
    seen ←
        absorb_snapshots {K = String × String} (λ item. (identity_fn item, variant_fn item)) fresh
          again all_items host_names []
    ok (map (finish total min_prevalence) (values seen))

-- The entry of a module stream also collects the set of its profiles.
pub record StreamEntry : Type 0 where
  pub item : EnabledModuleStream
  pub hosts : List String
  pub profiles : List String

abbrev pub fresh_stream : String → EnabledModuleStream → StreamEntry
fresh_stream hostname item = record {
  item = item;
  hosts = hostname ∷ [];
  profiles = unique item.profiles;
}

abbrev pub again_stream : String → EnabledModuleStream → StreamEntry → StreamEntry
again_stream hostname item entry = record {
  item = entry.item;
  hosts = entry.hosts ++ (hostname ∷ []);
  profiles = unique (entry.profiles ++ item.profiles);
}

unfoldable pub finish_stream : ℕ → ℕ → StreamEntry → EnabledModuleStream
finish_stream total min_prevalence entry =
    let count = length entry.hosts in
    record entry.item {
      profiles = sorted entry.profiles;
      fleet = some (record { count = count; total = total; hosts = entry.hosts });
      include = prevalence_include count total min_prevalence;
    }

abbrev pub stream_key : EnabledModuleStream → String
stream_key item = item.module_name <> (":" <> item.stream)

-- `_merge_module_streams`
unfoldable pub merge_module_streams :
    List (List EnabledModuleStream) → ℕ → ℕ → List String → Result (List EnabledModuleStream)
unfolding absorb_snapshots finish_stream values
merge_module_streams all_items total min_prevalence host_names = do
  seen ← absorb_snapshots stream_key fresh_stream again_stream all_items host_names []
  ok (map (finish_stream total min_prevalence) (values seen))
