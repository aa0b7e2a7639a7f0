-- ===== src/Tests/Containerfile.antt =====
-- Sections of the Containerfile.
use yoinkc.Base.{
  ◌+◌, ◌≡◌, refl, Bool, false, not, ◌&&◌, none, some, [], ◌∷◌, contains, keep_if, length, string_eq,
}
use yoinkc.Base.Dict.{lookup}
use yoinkc.Schema.{ServiceSection}
use yoinkc.InstallSet.{is_shell_unsafe}
use yoinkc.Tests.Data.{snapshot_of}
use yoinkc.Containerfile.DropIns.{parent_of}
use yoinkc.Containerfile.Helpers.{summarise_diff, operator_kargs}
use yoinkc.Containerfile.Network.{network_lines}
use yoinkc.Containerfile.Services.{
  UnitLists, is_safe, safe_enabled, safe_disabled, kept_units, unsafe_count, service_lines,
}
use yoinkc.Containerfile.Services.Units
use yoinkc.Containerfile.Services.Units.{is_nil}

abbrev units : UnitLists
units = record {
  enabled = "httpd.service" ∷ "a;b.service" ∷ "backup.timer" ∷ "lost.service" ∷ [];
  disabled = "kdump.service" ∷ [];
  in_config_tree = "backup.timer" ∷ [];
  owners = ("lost.service", "lost") ∷ [];
  packages = "httpd" ∷ [];
}

one_unsafe : unsafe_count units ≡ 1
unfolding unsafe_count string_eq
one_unsafe = refl

changed_key :
    summarise_diff "--- a\n+++ b\n@@ -1 +1 @@\n-Port 22: x\n+Port 22: y\n" ≡ "Port 22: x → y" ∷ []
unfolding summarise_diff string_eq
changed_key = refl

kept_args : operator_kargs "BOOT_IMAGE=/vmlinuz ro mitigations=off quiet" ≡ "mitigations=off" ∷ []
unfolding operator_kargs
kept_args = refl

no_network :
    network_lines (snapshot_of none)
    ≡ "# === Network / Kickstart ==="
      ∷ "# NOTE: Interface-specific config (DHCP, DNS) should be applied via kickstart at deploy time."
      ∷ "# FIXME: review kickstart-suggestion.ks for deployment-time config" ∷ "" ∷ []
unfolding network_lines
no_network = refl

parent : parent_of "etc/systemd/system/a.service.d/x.conf" ≡ "etc/systemd/system/a.service.d"
unfolding parent_of
parent = refl

abbrev no_units : ServiceSection
no_units = record { state_changes = []; enabled_units = []; disabled_units = []; drop_ins = [] }

no_section : service_lines (record (snapshot_of none) { services = some no_units }) ≡ []
unfolding service_lines
no_section = refl

-- A unit without an owner is enabled, one whose package is missing is not; without packages nothing is missing.
enabled : kept_units units (safe_enabled units) ≡ "httpd.service" ∷ []
unfolding kept_units safe_enabled string_eq
enabled = refl

without_packages :
    kept_units (record units { packages = [] }) (safe_enabled units)
    ≡ "httpd.service" ∷ "lost.service" ∷ []
unfolding kept_units safe_enabled string_eq
without_packages = refl

abbrev lost_package : Bool
lost_package = elim (lookup "lost.service" units.owners) [
  | none ↦ false
  | some owner ↦ not (is_nil units.packages) && not (contains units.packages owner)
]

kept_units-enables_example :
    (contains (kept_units units (safe_enabled units)) "lost.service" ≡ (
      contains units.enabled "lost.service"
      && not (is_shell_unsafe "lost.service")
      && not (contains units.in_config_tree "lost.service")
      && not lost_package))
    × (contains (kept_units units (safe_disabled units)) "lost.service" ≡ (
        contains units.disabled "lost.service"
        && not (is_shell_unsafe "lost.service")
        && not lost_package))
kept_units-enables_example = Units.kept_units-enables units "lost.service"

unsafe_count-counts_example :
    unsafe_count units
    ≡ length (keep_if (λ u. not (is_safe u) && not (contains units.in_config_tree u)) units.enabled)
      + length (keep_if (λ u. not (is_safe u)) units.disabled)
unsafe_count-counts_example = Units.unsafe_count-counts units
