-- ===== src/Triage.antt =====
-- renderers/_triage.py: the items of a snapshot that are automatic, that a FIXME marks, and that stay manual.
-- `_count_containerfile_fixmes` reads the output directory; what it returns is an argument.
pub mod Totals
use Prim.Native.Char.{code}
use yoinkc.Base.{
  ℕ, ◌+◌, String, Bool, true, false, not, ◌&&◌, ◌||◌, Option, none, some, List, [], ◌∷◌, ◌++◌,
  length, keep_if, ltb, ◌==◌, nat_eq, string_eq, if◌then◌else◌,
}
use yoinkc.Base.Text.{starts_with, lstrip_if}
use yoinkc.Schema.{
  InspectionSnapshot, RpmSection, ServiceSection, ConfigSection, NetworkSection,
  ScheduledTaskSection, ContainerSection, UserGroupSection,
}

-- sum(1 for x in xs if p(x))
unfoldable pub how_many : {A : Type 0} → (A → Bool) → List A → ℕ
unfolding keep_if
how_many p xs = length (keep_if p xs)

unfoldable pub config_file_count : Option ConfigSection → ℕ
unfolding how_many lstrip_if starts_with nat_eq
config_file_count none = 0
config_file_count (some config) =
    how_many
      (λ f.
        f.include
        && not (starts_with (lstrip_if (λ c. code c == 47) f.path) "etc/containers/systemd/"))
      config.files

unfoldable pub service_count : ServiceSection → ℕ
unfolding how_many string_eq
service_count services =
    how_many (λ sc. sc.include && (sc.action == "enable" || sc.action == "disable"))
      services.state_changes

unfoldable pub timer_count : ScheduledTaskSection → ℕ
unfolding how_many string_eq
timer_count tasks =
    how_many (λ t. t.include) tasks.generated_timer_units
    + how_many (λ t. t.source == "local") tasks.systemd_timers

abbrev zone_count : NetworkSection → ℕ
zone_count network = how_many (λ z. z.include) network.firewall_zones

abbrev account_count : UserGroupSection → ℕ
account_count ug = length ug.users + length ug.groups

abbrev quadlet_count : ContainerSection → ℕ
quadlet_count containers = how_many (λ q. q.include) containers.quadlet_units

-- What `if section: total += f(section)` adds to the total.
abbrev part : {S : Type 0} → (S → ℕ) → Option S → ℕ
part f none = 0
part f (some s) = f s

pub record Triage : Type 0 where
  pub automatic : ℕ
  pub fixme : ℕ
  pub manual : ℕ

-- `compute_triage`
unfoldable pub compute_triage : InspectionSnapshot → ℕ → Triage
unfolding config_file_count service_count timer_count how_many
compute_triage snapshot fixmes =
    let rpm =
      part
        (λ r.
          how_many (λ p. p.include) r.packages_added + how_many (λ p. p.include) r.base_image_only)
        snapshot.rpm in
    let services = rpm + part service_count snapshot.services in
    let config = services + config_file_count snapshot.config in
    let network = config + part zone_count snapshot.network in
    let tasks = network + part timer_count snapshot.scheduled_tasks in
    let accounts = tasks + part account_count snapshot.users_groups in
    let manual = length snapshot.warnings + length snapshot.redactions in
    record {
      automatic = accounts + part quadlet_count snapshot.containers;
      fixme = fixmes;
      manual = manual + part (λ ug. length ug.ssh_authorized_keys_refs) snapshot.users_groups;
    }

pub data Status : Type 0 where
  automatic fixme manual : Status

pub record TriageItem : Type 0 where
  pub label : String
  pub count : ℕ
  pub tab : String
  pub status : Status

-- `_add`, at the end of the items
unfoldable pub add : String → ℕ → String → Status → List TriageItem → List TriageItem
add label count tab status items =
    if ltb 0 count
    then items ++ (record { label = label; count = count; tab = tab; status = status } ∷ [])
    else items

-- `if section: _add(label, f(section), tab, status)`
unfoldable pub add_for :
    {S : Type 0} → String → (S → ℕ) → String → Status → Option S → List TriageItem → List TriageItem
unfolding add
add_for label f tab status none items = items
add_for label f tab status (some s) items = add label (f s) tab status items

-- `compute_triage_detail`
unfoldable pub compute_triage_detail : InspectionSnapshot → ℕ → List TriageItem
unfolding add add_for config_file_count service_count timer_count how_many
compute_triage_detail snapshot fixmes =
    let items =
      add_for "Packages added" (λ r. how_many (λ p. p.include) r.packages_added) "packages"
        automatic snapshot.rpm [] in
    let items =
      add_for "New from base image" (λ r. how_many (λ p. p.include) r.base_image_only) "packages"
        automatic snapshot.rpm items in
    let items =
      add_for "Services enabled/disabled" service_count "services" automatic snapshot.services
        items in
    let items =
      add_for "Config files" (λ c. config_file_count (some c)) "config" automatic snapshot.config
        items in
    let items =
      add_for "Quadlet units" quadlet_count "containers" automatic snapshot.containers items in
    let items =
      add_for "Users/groups" account_count "users_groups" automatic snapshot.users_groups items in
    let items =
      add_for "Cron-to-timer conversions" timer_count "scheduled_tasks" automatic
        snapshot.scheduled_tasks items in
    let items = add_for "Firewall zones" zone_count "network" automatic snapshot.network items in
    let items = add "Containerfile FIXMEs" fixmes "containerfile" fixme items in
    let items = add "Secrets redacted" (length snapshot.redactions) "secrets" manual items in
    let items = add "Warnings" (length snapshot.warnings) "warnings" manual items in
    add_for "SSH key references" (λ ug. length ug.ssh_authorized_keys_refs) "users_groups" manual
      snapshot.users_groups items
