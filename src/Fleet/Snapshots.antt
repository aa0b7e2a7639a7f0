-- ===== src/Fleet/Snapshots.antt =====
-- `merge_snapshots` of fleet/merge.py. The time of the merge is a parameter.
use yoinkc.Base.{
  ℕ, String, Bool, none, List, [], ◌∷◌, map, length, Result, ok, raise, index_error, ◌>>=◌,
  if◌then◌else◌,
}
use yoinkc.Schema.{
  InspectionSnapshot, PreflightResult, FleetMeta, package_mode, Json, num, str, arr, obj, Fields,
  end, field, texts, put, Redaction, plain,
}
use yoinkc.Fleet.Variants.{Runtime}
use yoinkc.Fleet.Names.{assign_display_names, full_hostnames}
use yoinkc.Fleet.Dedup.{deduplicate_warning_dicts}
use yoinkc.Fleet.Collect.{first_section}
use yoinkc.Fleet.Sections.Rpm.{merge_rpm}
use yoinkc.Fleet.Sections.Hashed.{merge_config, merge_services, merge_containers, merge_non_rpm}
use yoinkc.Fleet.Sections.Plain.{merge_network, merge_scheduled, merge_selinux, merge_users_groups}
use yoinkc.Fleet.Strip.{strip_host_lists}

-- The warnings as items of `_deduplicate_warning_dicts`, and back.
abbrev plain_fields : List Redaction → List Fields
plain_fields [] = []
plain_fields (Redaction.finding f ∷ items) = plain_fields items
plain_fields (Redaction.plain d ∷ items) = d ∷ plain_fields items

-- `PreflightResult()`
abbrev skipped : PreflightResult
skipped = record {
  status = "skipped";
  status_reason = none;
  available = [];
  unavailable = [];
  unverifiable = [];
  direct_install = [];
  repo_unreachable = [];
  base_image = "";
  repos_queried = [];
  timestamp = "";
}

-- dict(zip(host_names, full_hostnames))
unfoldable pub host_titles : List String → List Json → Fields → Fields
unfolding put
host_titles (name ∷ names) (full ∷ fulls) titles = host_titles names fulls (put name full titles)
host_titles _ _ titles = titles

unfoldable pub merged_meta : String → String → FleetMeta → Fields → Fields
merged_meta fleet_name timestamp fleet titles = field "hostname" (str fleet_name) (
    field "timestamp" (str timestamp) (
      field "fleet"
        (obj (
          field "source_hosts" (arr (texts fleet.source_hosts)) (
            field "total_hosts" (num fleet.total_hosts) (
              field "min_prevalence" (num fleet.min_prevalence)
                (field "host_title_map" (obj titles) end)))))
        end))

-- snapshots[0]
require_snapshot : List InspectionSnapshot → Result InspectionSnapshot
require_snapshot [] = raise index_error
require_snapshot (s ∷ snapshots) = ok s

module _ (r : Runtime) (timestamp : String) where
  -- The merge before the host lists are stripped. The display names that `assign_display_names` stores
  -- stay in the metadata of the sources, which nothing below reads.
  unfoldable pub merge_kept : List InspectionSnapshot → ℕ → String → Result InspectionSnapshot
  unfolding require_snapshot merged_meta host_titles
  merge_kept snapshots min_prevalence fleet_name = do
    (host_names, named) ← assign_display_names snapshots
    rpm_section ← merge_rpm snapshots min_prevalence host_names
    config_section ← merge_config r snapshots min_prevalence host_names
    services_section ← merge_services r snapshots min_prevalence host_names
    network_section ← merge_network snapshots min_prevalence host_names
    sched_section ← merge_scheduled snapshots min_prevalence host_names
    containers_section ← merge_containers r snapshots min_prevalence host_names
    non_rpm_section ← merge_non_rpm r snapshots min_prevalence host_names
    selinux_section ← merge_selinux snapshots min_prevalence host_names
    ug_section ← merge_users_groups snapshots min_prevalence host_names
    warnings_merged ← deduplicate_warning_dicts (map (λ s. map plain s.warnings) snapshots)
    redactions_merged ← deduplicate_warning_dicts (map (λ s. s.redactions) snapshots)
    first ← require_snapshot snapshots
    ok (record {
      schema_version = 11;
      meta =
          merged_meta fleet_name timestamp
            (record {
              source_hosts = host_names;
              total_hosts = length snapshots;
              min_prevalence = min_prevalence;
            })
            (host_titles host_names (full_hostnames 0 snapshots) end);
      os_release = first.os_release;
      system_type = package_mode;
      rpm = rpm_section;
      config = config_section;
      services = services_section;
      network = network_section;
      storage = none;
      scheduled_tasks = sched_section;
      containers = containers_section;
      non_rpm_software = non_rpm_section;
      kernel_boot = first_section (λ s. s.kernel_boot) snapshots;
      selinux = selinux_section;
      users_groups = ug_section;
      preflight = skipped;
      warnings = plain_fields warnings_merged;
      redactions = redactions_merged;
    })

  -- `merge_snapshots`
  unfoldable pub merge_snapshots :
      List InspectionSnapshot → ℕ → String → Bool → Result InspectionSnapshot
  merge_snapshots snapshots min_prevalence fleet_name include_hosts = do
    merged ← merge_kept snapshots min_prevalence fleet_name
    ok (if include_hosts then merged else strip_host_lists merged)
