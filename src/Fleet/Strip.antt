-- ===== src/Fleet/Strip.antt =====
-- `_strip_host_lists` of fleet/merge.py.
pub mod Private
use yoinkc.Base.{
  String, Bool, Option, none, some, List, [], ◌∷◌, map, ◌==◌, string_eq, if◌then◌else◌,
}
use yoinkc.Schema.{
  FleetPrevalence, InspectionSnapshot, RpmSection, ConfigSection, ServiceSection, NetworkSection,
  ScheduledTaskSection, ContainerSection, SelinuxSection, NonRpmSoftwareSection, UserGroupSection,
  Json, null, bool, num, str, arr, obj, nil, Fields, end, field, get, put,
}
use yoinkc.Fleet.Item.{Item}
use yoinkc.Fleet.Item.Instances.{
  package_entry, enabled_module_stream, version_lock_entry, repo_file, config_file_entry,
  service_state_change, systemd_drop_in, firewall_zone, cron_job, generated_timer_unit,
  quadlet_unit, compose_file, non_rpm_item, selinux_port_label,
}

without_hosts : Option FleetPrevalence → Option FleetPrevalence
without_hosts none = none
without_hosts (some f) = some (record f { hosts = [] })

-- item.fleet.hosts = []
unfoldable pub strip_item : {A : Type 0} ⦃i : Item A⦄ → A → A
unfolding without_hosts
strip_item ⦃i⦄ item = i.set_fleet (without_hosts (i.fleet item)) item

-- `if isinstance(fleet, dict) and "hosts" in fleet: fleet["hosts"] = []`
strip_fleet : Json → Json
strip_fleet (obj fleet) = elim (get "hosts" fleet) [
  | none ↦ obj fleet
  | some v ↦ obj (put "hosts" (arr nil) fleet)
]
strip_fleet v = v

unfoldable pub strip_dict : Fields → Fields
unfolding strip_fleet get put
strip_dict item = elim (get "fleet" item) [
  | none ↦ item
  | some fleet ↦ put "fleet" (strip_fleet fleet) item
]

abbrev on_section : {S : Type 0} → (S → S) → Option S → Option S
on_section f none = none
on_section f (some s) = some (f s)

-- The lists of each section whose items can carry a prevalence; the other lists hold texts and items
-- without one, and stay.
strip_rpm : RpmSection → RpmSection
strip_rpm s = record s {
  packages_added = map strip_item s.packages_added;
  base_image_only = map strip_item s.base_image_only;
  repo_files = map strip_item s.repo_files;
  gpg_keys = map strip_item s.gpg_keys;
  module_streams = map strip_item s.module_streams;
  version_locks = map strip_item s.version_locks;
}

strip_services : ServiceSection → ServiceSection
strip_services s = record s {
  state_changes = map strip_item s.state_changes;
  drop_ins = map strip_item s.drop_ins;
}

strip_scheduled : ScheduledTaskSection → ScheduledTaskSection
strip_scheduled s = record s {
  cron_jobs = map strip_item s.cron_jobs;
  generated_timer_units = map strip_item s.generated_timer_units;
}

strip_containers : ContainerSection → ContainerSection
strip_containers s = record s {
  quadlet_units = map strip_item s.quadlet_units;
  compose_files = map strip_item s.compose_files;
}

strip_selinux : SelinuxSection → SelinuxSection
strip_selinux s = record s {
  boolean_overrides = map strip_dict s.boolean_overrides;
  port_labels = map strip_item s.port_labels;
}

strip_non_rpm : NonRpmSoftwareSection → NonRpmSoftwareSection
strip_non_rpm s = record s {
  items = map strip_item s.items;
  env_files = map strip_item s.env_files;
}

strip_users_groups : UserGroupSection → UserGroupSection
strip_users_groups s = record s {
  users = map strip_dict s.users;
  groups = map strip_dict s.groups;
  ssh_authorized_keys_refs = map strip_dict s.ssh_authorized_keys_refs;
}

-- `_strip_host_lists`
unfoldable pub strip_host_lists : InspectionSnapshot → InspectionSnapshot
unfolding strip_item strip_dict strip_rpm strip_services strip_scheduled strip_containers
    strip_selinux strip_non_rpm strip_users_groups
strip_host_lists s = record s {
  rpm = on_section strip_rpm s.rpm;
  config = on_section (λ c. record c { files = map strip_item c.files }) s.config;
  services = on_section strip_services s.services;
  network =
      on_section (λ n. record n { firewall_zones = map strip_item n.firewall_zones }) s.network;
  scheduled_tasks = on_section strip_scheduled s.scheduled_tasks;
  containers = on_section strip_containers s.containers;
  selinux = on_section strip_selinux s.selinux;
  non_rpm_software = on_section strip_non_rpm s.non_rpm_software;
  users_groups = on_section strip_users_groups s.users_groups;
}
