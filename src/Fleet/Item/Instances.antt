-- ===== src/Fleet/Item/Instances.antt =====
-- The classes of schema.py as items of the merge engine.
use yoinkc.Base.{refl}
use yoinkc.Schema.{
  PackageEntry, EnabledModuleStream, VersionLockEntry, RepoFile, ConfigFileEntry,
  ServiceStateChange, SystemdDropIn, FirewallZone, CronJob, GeneratedTimerUnit, QuadletUnit,
  ComposeFile, NonRpmItem, SelinuxPortLabel,
}
use yoinkc.Fleet.Item.{Item}

instance abbrev pub package_entry : Item PackageEntry
package_entry = record {
  fleet = λ a. a.fleet;
  set_fleet = λ f a. record a { fleet = f };
  include = λ a. a.include;
  set_include = λ b a. record a { include = b };
  fleet-set_fleet = λ f a. refl;
  include-set_include = λ b a. refl;
  fleet-set_include = λ b a. refl;
  include-set_fleet = λ f a. refl;
}

instance abbrev pub enabled_module_stream : Item EnabledModuleStream
enabled_module_stream = record {
  fleet = λ a. a.fleet;
  set_fleet = λ f a. record a { fleet = f };
  include = λ a. a.include;
  set_include = λ b a. record a { include = b };
  fleet-set_fleet = λ f a. refl;
  include-set_include = λ b a. refl;
  fleet-set_include = λ b a. refl;
  include-set_fleet = λ f a. refl;
}

instance abbrev pub version_lock_entry : Item VersionLockEntry
version_lock_entry = record {
  fleet = λ a. a.fleet;
  set_fleet = λ f a. record a { fleet = f };
  include = λ a. a.include;
  set_include = λ b a. record a { include = b };
  fleet-set_fleet = λ f a. refl;
  include-set_include = λ b a. refl;
  fleet-set_include = λ b a. refl;
  include-set_fleet = λ f a. refl;
}

instance abbrev pub repo_file : Item RepoFile
repo_file = record {
  fleet = λ a. a.fleet;
  set_fleet = λ f a. record a { fleet = f };
  include = λ a. a.include;
  set_include = λ b a. record a { include = b };
  fleet-set_fleet = λ f a. refl;
  include-set_include = λ b a. refl;
  fleet-set_include = λ b a. refl;
  include-set_fleet = λ f a. refl;
}

instance abbrev pub config_file_entry : Item ConfigFileEntry
config_file_entry = record {
  fleet = λ a. a.fleet;
  set_fleet = λ f a. record a { fleet = f };
  include = λ a. a.include;
  set_include = λ b a. record a { include = b };
  fleet-set_fleet = λ f a. refl;
  include-set_include = λ b a. refl;
  fleet-set_include = λ b a. refl;
  include-set_fleet = λ f a. refl;
}

instance abbrev pub service_state_change : Item ServiceStateChange
service_state_change = record {
  fleet = λ a. a.fleet;
  set_fleet = λ f a. record a { fleet = f };
  include = λ a. a.include;
  set_include = λ b a. record a { include = b };
  fleet-set_fleet = λ f a. refl;
  include-set_include = λ b a. refl;
  fleet-set_include = λ b a. refl;
  include-set_fleet = λ f a. refl;
}

instance abbrev pub systemd_drop_in : Item SystemdDropIn
systemd_drop_in = record {
  fleet = λ a. a.fleet;
  set_fleet = λ f a. record a { fleet = f };
  include = λ a. a.include;
  set_include = λ b a. record a { include = b };
  fleet-set_fleet = λ f a. refl;
  include-set_include = λ b a. refl;
  fleet-set_include = λ b a. refl;
  include-set_fleet = λ f a. refl;
}

instance abbrev pub firewall_zone : Item FirewallZone
firewall_zone = record {
  fleet = λ a. a.fleet;
  set_fleet = λ f a. record a { fleet = f };
  include = λ a. a.include;
  set_include = λ b a. record a { include = b };
  fleet-set_fleet = λ f a. refl;
  include-set_include = λ b a. refl;
  fleet-set_include = λ b a. refl;
  include-set_fleet = λ f a. refl;
}

instance abbrev pub cron_job : Item CronJob
cron_job = record {
  fleet = λ a. a.fleet;
  set_fleet = λ f a. record a { fleet = f };
  include = λ a. a.include;
  set_include = λ b a. record a { include = b };
  fleet-set_fleet = λ f a. refl;
  include-set_include = λ b a. refl;
  fleet-set_include = λ b a. refl;
  include-set_fleet = λ f a. refl;
}

instance abbrev pub generated_timer_unit : Item GeneratedTimerUnit
generated_timer_unit = record {
  fleet = λ a. a.fleet;
  set_fleet = λ f a. record a { fleet = f };
  include = λ a. a.include;
  set_include = λ b a. record a { include = b };
  fleet-set_fleet = λ f a. refl;
  include-set_include = λ b a. refl;
  fleet-set_include = λ b a. refl;
  include-set_fleet = λ f a. refl;
}

instance abbrev pub quadlet_unit : Item QuadletUnit
quadlet_unit = record {
  fleet = λ a. a.fleet;
  set_fleet = λ f a. record a { fleet = f };
  include = λ a. a.include;
  set_include = λ b a. record a { include = b };
  fleet-set_fleet = λ f a. refl;
  include-set_include = λ b a. refl;
  fleet-set_include = λ b a. refl;
  include-set_fleet = λ f a. refl;
}

instance abbrev pub compose_file : Item ComposeFile
compose_file = record {
  fleet = λ a. a.fleet;
  set_fleet = λ f a. record a { fleet = f };
  include = λ a. a.include;
  set_include = λ b a. record a { include = b };
  fleet-set_fleet = λ f a. refl;
  include-set_include = λ b a. refl;
  fleet-set_include = λ b a. refl;
  include-set_fleet = λ f a. refl;
}

instance abbrev pub non_rpm_item : Item NonRpmItem
non_rpm_item = record {
  fleet = λ a. a.fleet;
  set_fleet = λ f a. record a { fleet = f };
  include = λ a. a.include;
  set_include = λ b a. record a { include = b };
  fleet-set_fleet = λ f a. refl;
  include-set_include = λ b a. refl;
  fleet-set_include = λ b a. refl;
  include-set_fleet = λ f a. refl;
}

instance abbrev pub selinux_port_label : Item SelinuxPortLabel
selinux_port_label = record {
  fleet = λ a. a.fleet;
  set_fleet = λ f a. record a { fleet = f };
  include = λ a. a.include;
  set_include = λ b a. record a { include = b };
  fleet-set_fleet = λ f a. refl;
  include-set_include = λ b a. refl;
  fleet-set_include = λ b a. refl;
  include-set_fleet = λ f a. refl;
}
