-- ===== src/Tests/Data.antt =====
-- Snapshots, packages and fleets for the runs.
use yoinkc.Base.{String, true, false, Option, none, List, []}
use yoinkc.Schema.{
  Json, Fields, PackageState, SystemType, InspectionSnapshot, PackageEntry, RpmSection,
}
use yoinkc.Architect.Topology.{FleetInput}

abbrev pub rpm_package : String → String → PackageEntry
rpm_package name version = record {
  name = name;
  epoch = "0";
  version = version;
  release = "1.el9";
  arch = "x86_64";
  state = PackageState.added;
  include = true;
  source_repo = "baseos";
  fleet = none;
}

abbrev pub no_rpm : RpmSection
no_rpm = record {
  packages_added = [];
  base_image_only = [];
  rpm_va = [];
  repo_files = [];
  gpg_keys = [];
  dnf_history_removed = [];
  version_changes = [];
  leaf_packages = none;
  auto_packages = none;
  leaf_dep_tree = none;
  module_streams = [];
  version_locks = [];
  module_stream_conflicts = [];
  baseline_module_streams = none;
  versionlock_command_output = none;
  multiarch_packages = [];
  duplicate_packages = [];
  repo_providing_packages = [];
  ostree_overrides = [];
  ostree_removals = [];
  base_image = none;
  baseline_package_names = none;
  no_baseline = false;
}

abbrev pub snapshot_of : Option RpmSection → InspectionSnapshot
snapshot_of rpm = record {
  schema_version = 1;
  meta = Fields.field "hostname" (Json.str "web1.example") Fields.end;
  os_release = none;
  system_type = SystemType.package_mode;
  rpm = rpm;
  config = none;
  services = none;
  network = none;
  storage = none;
  scheduled_tasks = none;
  containers = none;
  non_rpm_software = none;
  kernel_boot = none;
  selinux = none;
  users_groups = none;
  preflight = record {
    status = "skipped";
    status_reason = none;
    available = [];
    unavailable = [];
    unverifiable = [];
    direct_install = [];
    repo_unreachable = [];
    base_image = "";
    repos_queried = [];
    timestamp = "";
  };
  warnings = [];
  redactions = [];
}

abbrev pub fleet_of : String → List String → FleetInput
fleet_of name packages = record {
  name = name;
  packages = packages;
  configs = [];
  host_count = 3;
  base_image = "";
  unavailable_packages = [];
  direct_install_packages = [];
  unverifiable_packages = [];
  preflight_status = "skipped";
}
