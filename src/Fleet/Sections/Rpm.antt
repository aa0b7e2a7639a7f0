-- ===== src/Fleet/Sections/Rpm.antt =====
-- The RPM section of `merge_snapshots`.
use yoinkc.Base.{
  ℕ, String, ◌<>◌, Option, none, some, List, [], ◌∷◌, map, length, ◌==◌, string_eq, Result, ok,
  raise, stop_iteration, ◌>>=◌, if◌then◌else◌,
}
use yoinkc.Base.Dict.{Dict, lookup}
use yoinkc.Base.Text.{decimal}
use yoinkc.Schema.{InspectionSnapshot, RpmSection, EnabledModuleStream}
use yoinkc.Fleet.Item.Instances.{package_entry, repo_file, version_lock_entry}
use yoinkc.Fleet.Merge.{merge_identity_items, merge_content_items, merge_module_streams}
use yoinkc.Fleet.Dedup.{deduplicate_strings, deduplicate_optional_strings, merge_dep_trees}
use yoinkc.Fleet.Collect.{collect_section_lists, has_section, first_section}

-- A module stream that the base image has on another stream.
conflict : Dict String String → EnabledModuleStream → Option String
conflict baseline ms = elim (lookup ms.module_name baseline) [
  | none ↦ none
  | some base_stream ↦
      if base_stream == ms.stream
      then none
      else some (ms.module_name <> (": host=" <> (ms.stream <> (", base_image=" <> base_stream))))
]

keep_some : Option String → List String → List String
keep_some none rest = rest
keep_some (some s) rest = s ∷ rest

conflicts_with : Dict String String → List EnabledModuleStream → List String
conflicts_with baseline [] = []
conflicts_with baseline (ms ∷ streams) =
    let rest = conflicts_with baseline streams in
    if ms.baseline_match then rest else keep_some (conflict baseline ms) rest

-- `None` and an empty dict are false.
unfoldable pub stream_conflicts :
    Option (Dict String String) → List EnabledModuleStream → List String
unfolding conflicts_with conflict keep_some lookup string_eq
stream_conflicts none streams = []
stream_conflicts (some baseline) streams = conflicts_with baseline streams

require_first : {S : Type 0} → Option S → Result S
require_first none = raise stop_iteration
require_first (some s) = ok s

module _ (snapshots : List InspectionSnapshot) (min_prevalence : ℕ) (host_names : List String) where
  lists : {A : Type 0} → (RpmSection → List A) → List (List A)
  lists list_attr = collect_section_lists (λ s. s.rpm) list_attr snapshots

  abbrev rpm_field : {A : Type 0} → (RpmSection → Option A) → List (Option A)
  rpm_field f = map (λ s. elim s.rpm [ none ↦ none | some rpm ↦ f rpm ]) snapshots

  build_rpm : Result (Option RpmSection)
  build_rpm = do
    let total = length snapshots
    packages_added ←
        merge_identity_items (lists (λ r. r.packages_added)) (λ p. p.name) total min_prevalence
          host_names
    base_image_only ←
        merge_identity_items (lists (λ r. r.base_image_only)) (λ p. p.name) total min_prevalence
          host_names
    repo_files ←
        merge_identity_items (lists (λ r. r.repo_files)) (λ f. f.path) total min_prevalence
          host_names
    gpg_keys ←
        merge_identity_items (lists (λ r. r.gpg_keys)) (λ f. f.path) total min_prevalence host_names
    module_streams ←
        merge_module_streams (lists (λ r. r.module_streams)) total min_prevalence host_names
    version_locks ←
        merge_content_items (lists (λ r. r.version_locks)) (λ e. e.name <> ("." <> e.arch))
          (λ e. decimal e.epoch <> (":" <> (e.version <> ("-" <> e.release)))) total min_prevalence
          host_names
    first_rpm ← require_first (first_section (λ s. s.rpm) snapshots)
    ok (
        some (record {
          packages_added = packages_added;
          base_image_only = base_image_only;
          rpm_va = [];
          repo_files = repo_files;
          gpg_keys = gpg_keys;
          dnf_history_removed = deduplicate_strings (lists (λ r. r.dnf_history_removed));
          version_changes = [];
          leaf_packages = deduplicate_optional_strings (rpm_field (λ r. r.leaf_packages));
          auto_packages = deduplicate_optional_strings (rpm_field (λ r. r.auto_packages));
          leaf_dep_tree = merge_dep_trees (rpm_field (λ r. r.leaf_dep_tree));
          module_streams = module_streams;
          version_locks = version_locks;
          module_stream_conflicts =
              stream_conflicts first_rpm.baseline_module_streams module_streams;
          baseline_module_streams = first_rpm.baseline_module_streams;
          versionlock_command_output = none;
          multiarch_packages = [];
          duplicate_packages = [];
          repo_providing_packages = [];
          ostree_overrides = [];
          ostree_removals = [];
          base_image = first_rpm.base_image;
          baseline_package_names = first_rpm.baseline_package_names;
          no_baseline = first_rpm.no_baseline;
        }))

  unfoldable pub merge_rpm : Result (Option RpmSection)
  unfolding build_rpm lists require_first collect_section_lists has_section first_section
  merge_rpm = if has_section (λ s. s.rpm) snapshots then build_rpm else ok none
