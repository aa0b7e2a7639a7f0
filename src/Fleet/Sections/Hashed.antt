-- ===== src/Fleet/Sections/Hashed.antt =====
-- The sections of `merge_snapshots` whose files are compared by content: config, services, containers
-- and software without a package.
use yoinkc.Base.{
  ℕ, String, ◌<>◌, Option, none, some, List, [], length, Result, ok, ◌>>=◌, if◌then◌else◌,
}
use yoinkc.Schema.{
  InspectionSnapshot, ConfigSection, ServiceSection, ContainerSection, NonRpmSoftwareSection,
}
use yoinkc.Fleet.Item.Instances.{
  config_file_entry, service_state_change, systemd_drop_in, quadlet_unit, compose_file,
  non_rpm_item,
}
use yoinkc.Fleet.Merge.{merge_identity_items, merge_content_items}
use yoinkc.Fleet.Dedup.{deduplicate_strings}
use yoinkc.Fleet.Variants.{
  Runtime, content_hash, normalize_content, images_text, auto_select_variants, config_file_variant,
  drop_in_variant, quadlet_variant, compose_variant,
}
use yoinkc.Fleet.Collect.{collect_section_lists, has_section}

module _ (r : Runtime) (snapshots : List InspectionSnapshot) (min_prevalence : ℕ)
    (host_names : List String) where
  build_config : Result (Option ConfigSection)
  build_config = do
    files ←
        merge_content_items (collect_section_lists (λ s. s.config) (λ c. c.files) snapshots)
          (λ f. f.path) (λ f. content_hash r (normalize_content f.content)) (length snapshots)
          min_prevalence host_names
    ok (some (record { files = auto_select_variants r files }))

  unfoldable pub merge_config : Result (Option ConfigSection)
  unfolding build_config collect_section_lists has_section
  merge_config = if has_section (λ s. s.config) snapshots then build_config else ok none

  build_services : Result (Option ServiceSection)
  build_services = do
    state_changes ←
        merge_identity_items
          (collect_section_lists (λ s. s.services) (λ c. c.state_changes) snapshots)
          (λ sc. sc.unit <> (":" <> sc.action)) (length snapshots) min_prevalence host_names
    drop_ins ←
        merge_content_items (collect_section_lists (λ s. s.services) (λ c. c.drop_ins) snapshots)
          (λ d. d.path) (λ d. content_hash r (normalize_content d.content)) (length snapshots)
          min_prevalence host_names
    ok (
        some (record {
          state_changes = state_changes;
          enabled_units =
              deduplicate_strings
                (collect_section_lists (λ s. s.services) (λ c. c.enabled_units) snapshots);
          disabled_units =
              deduplicate_strings
                (collect_section_lists (λ s. s.services) (λ c. c.disabled_units) snapshots);
          drop_ins = auto_select_variants r drop_ins;
        }))

  unfoldable pub merge_services : Result (Option ServiceSection)
  unfolding build_services collect_section_lists has_section
  merge_services = if has_section (λ s. s.services) snapshots then build_services else ok none

  build_containers : Result (Option ContainerSection)
  build_containers = do
    quadlet_units ←
        merge_content_items
          (collect_section_lists (λ s. s.containers) (λ c. c.quadlet_units) snapshots) (λ q. q.path)
          (λ q. content_hash r (normalize_content q.content)) (length snapshots) min_prevalence
          host_names
    compose_files ←
        merge_content_items
          (collect_section_lists (λ s. s.containers) (λ c. c.compose_files) snapshots) (λ c. c.path)
          (λ c. content_hash r (images_text r c.images)) (length snapshots) min_prevalence
          host_names
    ok (
        some (record {
          quadlet_units = auto_select_variants r quadlet_units;
          compose_files = auto_select_variants r compose_files;
          running_containers = [];
          flatpak_apps = [];
        }))

  unfoldable pub merge_containers : Result (Option ContainerSection)
  unfolding build_containers collect_section_lists has_section
  merge_containers = if has_section (λ s. s.containers) snapshots then build_containers else ok none

  build_non_rpm : Result (Option NonRpmSoftwareSection)
  build_non_rpm = do
    items ←
        merge_identity_items
          (collect_section_lists (λ s. s.non_rpm_software) (λ c. c.items) snapshots) (λ n. n.path)
          (length snapshots) min_prevalence host_names
    env_files ←
        merge_content_items
          (collect_section_lists (λ s. s.non_rpm_software) (λ c. c.env_files) snapshots)
          (λ f. f.path) (λ f. content_hash r (normalize_content f.content)) (length snapshots)
          min_prevalence host_names
    ok (some (record { items = items; env_files = auto_select_variants r env_files }))

  unfoldable pub merge_non_rpm : Result (Option NonRpmSoftwareSection)
  unfolding build_non_rpm collect_section_lists has_section
  merge_non_rpm = if has_section (λ s. s.non_rpm_software) snapshots then build_non_rpm else ok none
