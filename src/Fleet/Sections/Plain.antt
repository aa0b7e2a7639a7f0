-- ===== src/Fleet/Sections/Plain.antt =====
-- The other sections of `merge_snapshots`: network, scheduled tasks, SELinux, users and groups.
use yoinkc.Base.{
  ℕ, String, ◌<>◌, Option, none, some, List, [], ◌∷◌, length, string_eq, Result, ok, raise,
  stop_iteration, ◌>>=◌, if◌then◌else◌,
}
use yoinkc.Base.Dict.{Dict, values, upsert}
use yoinkc.Schema.{
  InspectionSnapshot, NetworkSection, ScheduledTaskSection, SelinuxSection, UserGroupSection,
  SystemdTimer,
}
use yoinkc.Fleet.Item.Instances.{firewall_zone, generated_timer_unit, cron_job, selinux_port_label}
use yoinkc.Fleet.Merge.{merge_identity_items}
use yoinkc.Fleet.Dedup.{deduplicate_strings, deduplicate_dicts}
use yoinkc.Fleet.Collect.{collect_section_lists, has_section, first_section}

-- The first timer of each name.
unfoldable pub see_timers : Dict String SystemdTimer → List SystemdTimer → Dict String SystemdTimer
see_timers timer_seen [] = timer_seen
see_timers timer_seen (t ∷ items) = see_timers (upsert t.name t (λ old. old) timer_seen) items

unfoldable pub see_timer_lists :
    Dict String SystemdTimer → List (List SystemdTimer) → Dict String SystemdTimer
unfolding see_timers
see_timer_lists timer_seen [] = timer_seen
see_timer_lists timer_seen (items ∷ all_items) =
    see_timer_lists (see_timers timer_seen items) all_items

require_selinux : Option SelinuxSection → Result SelinuxSection
require_selinux none = raise stop_iteration
require_selinux (some s) = ok s

module _ (snapshots : List InspectionSnapshot) (min_prevalence : ℕ) (host_names : List String) where
  build_network : Result (Option NetworkSection)
  build_network = do
    firewall_zones ←
        merge_identity_items
          (collect_section_lists (λ s. s.network) (λ n. n.firewall_zones) snapshots) (λ z. z.name)
          (length snapshots) min_prevalence host_names
    ok (
        some (record {
          connections = [];
          firewall_zones = firewall_zones;
          firewall_direct_rules = [];
          static_routes = [];
          ip_routes = [];
          ip_rules = [];
          resolv_provenance = "";
          hosts_additions = [];
          proxy = [];
        }))

  unfoldable pub merge_network : Result (Option NetworkSection)
  unfolding build_network collect_section_lists has_section
  merge_network = if has_section (λ s. s.network) snapshots then build_network else ok none

  abbrev tasks : {A : Type 0} → (ScheduledTaskSection → List A) → List (List A)
  tasks list_attr = collect_section_lists (λ s. s.scheduled_tasks) list_attr snapshots

  build_scheduled : Result (Option ScheduledTaskSection)
  build_scheduled = do
    generated_timer_units ←
        merge_identity_items (tasks (λ t. t.generated_timer_units)) (λ t. t.name) (length snapshots)
          min_prevalence host_names
    cron_jobs ←
        merge_identity_items (tasks (λ t. t.cron_jobs)) (λ c. c.path) (length snapshots)
          min_prevalence host_names
    ok (
        some (record {
          cron_jobs = cron_jobs;
          systemd_timers = values (see_timer_lists [] (tasks (λ t. t.systemd_timers)));
          at_jobs = [];
          generated_timer_units = generated_timer_units;
        }))

  unfoldable pub merge_scheduled : Result (Option ScheduledTaskSection)
  unfolding build_scheduled collect_section_lists has_section see_timer_lists values
  merge_scheduled =
      if has_section (λ s. s.scheduled_tasks) snapshots then build_scheduled else ok none

  abbrev labels : {A : Type 0} → (SelinuxSection → List A) → List (List A)
  labels list_attr = collect_section_lists (λ s. s.selinux) list_attr snapshots

  build_selinux : Result (Option SelinuxSection)
  build_selinux = do
    port_labels ←
        merge_identity_items (labels (λ s. s.port_labels)) (λ p. p.protocol <> ("/" <> p.port))
          (length snapshots) min_prevalence host_names
    boolean_overrides ←
        deduplicate_dicts (labels (λ s. s.boolean_overrides)) "name" (length snapshots) host_names
    first_se ← require_selinux (first_section (λ s. s.selinux) snapshots)
    ok (
        some (record {
          mode = first_se.mode;
          custom_modules = deduplicate_strings (labels (λ s. s.custom_modules));
          boolean_overrides = boolean_overrides;
          fcontext_rules = deduplicate_strings (labels (λ s. s.fcontext_rules));
          audit_rules = deduplicate_strings (labels (λ s. s.audit_rules));
          fips_mode = first_se.fips_mode;
          pam_configs = deduplicate_strings (labels (λ s. s.pam_configs));
          port_labels = port_labels;
        }))

  unfoldable pub merge_selinux : Result (Option SelinuxSection)
  unfolding build_selinux collect_section_lists has_section first_section require_selinux
  merge_selinux = if has_section (λ s. s.selinux) snapshots then build_selinux else ok none

  abbrev accounts : {A : Type 0} → (UserGroupSection → List A) → List (List A)
  accounts list_attr = collect_section_lists (λ s. s.users_groups) list_attr snapshots

  build_users_groups : Result (Option UserGroupSection)
  build_users_groups = do
    users ← deduplicate_dicts (accounts (λ u. u.users)) "name" (length snapshots) host_names
    groups ← deduplicate_dicts (accounts (λ u. u.groups)) "name" (length snapshots) host_names
    ok (
        some (record {
          users = users;
          groups = groups;
          sudoers_rules = deduplicate_strings (accounts (λ u. u.sudoers_rules));
          ssh_authorized_keys_refs = [];
          passwd_entries = [];
          shadow_entries = [];
          group_entries = [];
          gshadow_entries = [];
          subuid_entries = [];
          subgid_entries = [];
        }))

  unfoldable pub merge_users_groups : Result (Option UserGroupSection)
  unfolding build_users_groups collect_section_lists has_section
  merge_users_groups =
      if has_section (λ s. s.users_groups) snapshots then build_users_groups else ok none
