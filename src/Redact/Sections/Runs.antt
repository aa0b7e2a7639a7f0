-- ===== src/Redact/Sections/Runs.antt =====
-- The steps of `redact_snapshot` are runs of a redactor.
use yoinkc.Base.{String, List, ◌∷◌, ◌==◌, string_eq, Option, none, some, if◌then◌else◌, nat_eq}
use yoinkc.Base.Text.{is_empty}
use yoinkc.Schema.{
  ConfigFileEntry, ConfigSection, NetworkSection, FirewallZone, ContainerSection, QuadletUnit,
  RunningContainer, ScheduledTaskSection, GeneratedTimerUnit, SystemdTimer, KernelBootSection,
  ConfigSnippet, NonRpmSoftwareSection, UserGroupSection,
}
use yoinkc.Redact.Scan.{pure, report}
use yoinkc.Redact.Scan.Runs.{Runs, runs_rules, Runs-pure, Runs-bind, Runs-if, Runs-report}
use yoinkc.Redact.Texts.{Regex, is_excluded_path}
use yoinkc.Redact.Runs.{redact_text-Runs, redact_shadow_entry-Runs}
use yoinkc.Redact.Sections.{
  exclude_file, redact_diff, redact_file, zone, quadlet, variable, running, generated_timer,
  systemd_timer, snippet, snippets, redact_env_file, rule, shadow, gecos, redact_config,
  redact_network, redact_containers, redact_scheduled, redact_kernel_boot, redact_non_rpm,
  redact_users_groups, excluded_placeholder, excluded_finding,
}

module _ (re : Regex) where
  exclude_file-Runs : (entry : ConfigFileEntry) → Runs (exclude_file re entry)
  unfolding exclude_file
  exclude_file-Runs entry =
      Runs-bind
        (if entry.content == excluded_placeholder
          then pure tt
          else report (excluded_finding re entry))
        _ (Runs-if (entry.content == excluded_placeholder) _ _ (Runs-pure tt) (Runs-report _))
        λ _. Runs-pure _

  redact_diff-Runs : (path : String) (diff : Option String) → Runs (redact_diff re path diff)
  unfolding redact_diff
  redact_diff-Runs path none = Runs-pure none
  redact_diff-Runs path (some diff) =
      Runs-if (is_empty diff) _ _ (Runs-pure _) (search (runs_rules, redact_text-Runs))

  redact_file-Runs : (entry : ConfigFileEntry) → Runs (redact_file re entry)
  unfolding redact_file
  redact_file-Runs entry =
      Runs-if (is_excluded_path re entry.path) _ _ (search (runs_rules, exclude_file-Runs))
        (search (runs_rules, redact_text-Runs, redact_diff-Runs))

  zone-Runs : (z : FirewallZone) → Runs (zone re z)
  unfolding zone
  zone-Runs z = search (runs_rules, redact_text-Runs)

  quadlet-Runs : (u : QuadletUnit) → Runs (quadlet re u)
  unfolding quadlet
  quadlet-Runs u = search (runs_rules, redact_text-Runs)

  variable-Runs : (name e : String) → Runs (variable re name e)
  unfolding variable
  variable-Runs name e = search (runs_rules, redact_text-Runs)

  running-Runs : (c : RunningContainer) → Runs (running re c)
  unfolding running
  running-Runs c = search (runs_rules, variable-Runs)

  generated_timer-Runs : (u : GeneratedTimerUnit) → Runs (generated_timer re u)
  unfolding generated_timer
  generated_timer-Runs u = search (runs_rules, redact_text-Runs)

  systemd_timer-Runs : (t : SystemdTimer) → Runs (systemd_timer re t)
  unfolding systemd_timer
  systemd_timer-Runs t =
      Runs-if (t.source == "local") _ _ (search (runs_rules, redact_text-Runs)) (Runs-pure _)

  snippet-Runs : (label : String) (entry : ConfigSnippet) → Runs (snippet re label entry)
  unfolding snippet
  snippet-Runs label entry = search (runs_rules, redact_text-Runs)

  snippets-Runs : (label : String) (entries : List ConfigSnippet) → Runs (snippets re label entries)
  unfolding snippets
  snippets-Runs label entries = search (runs_rules, snippet-Runs)

  redact_env_file-Runs : (entry : ConfigFileEntry) → Runs (redact_env_file re entry)
  unfolding redact_env_file
  redact_env_file-Runs entry =
      Runs-if (is_excluded_path re entry.path) _ _ (search (runs_rules, exclude_file-Runs))
        (search (runs_rules, redact_text-Runs))

  rule-Runs : (r : String) → Runs (rule re r)
  unfolding rule
  rule-Runs r = search (runs_rules, redact_text-Runs)

  shadow-Runs : (entry : String) → Runs (shadow re entry)
  unfolding shadow
  shadow-Runs entry = search (runs_rules, redact_shadow_entry-Runs)

  gecos-Runs : (entry : String) (fields : List String) → Runs (gecos re entry fields)
  unfolding gecos
  gecos-Runs entry (a ∷ b ∷ c ∷ d ∷ e ∷ rest) = search (runs_rules, redact_text-Runs)
  gecos-Runs entry _ = search runs_rules

  pub redact_config-Runs : (config : ConfigSection) → Runs (redact_config re config)
  unfolding redact_config
  redact_config-Runs config = search (runs_rules, redact_file-Runs)

  pub redact_network-Runs : (network : NetworkSection) → Runs (redact_network re network)
  unfolding redact_network
  redact_network-Runs network = search (runs_rules, zone-Runs)

  pub redact_containers-Runs :
      (containers : ContainerSection) → Runs (redact_containers re containers)
  unfolding redact_containers
  redact_containers-Runs containers = search (runs_rules, quadlet-Runs, running-Runs)

  pub redact_scheduled-Runs : (tasks : ScheduledTaskSection) → Runs (redact_scheduled re tasks)
  unfolding redact_scheduled
  redact_scheduled-Runs tasks = search (runs_rules, generated_timer-Runs, systemd_timer-Runs)

  pub redact_kernel_boot-Runs : (kernel : KernelBootSection) → Runs (redact_kernel_boot re kernel)
  unfolding redact_kernel_boot
  redact_kernel_boot-Runs kernel = search (runs_rules, redact_text-Runs, snippets-Runs)

  pub redact_non_rpm-Runs : (section : NonRpmSoftwareSection) → Runs (redact_non_rpm re section)
  unfolding redact_non_rpm
  redact_non_rpm-Runs section = search (runs_rules, redact_env_file-Runs)

  pub redact_users_groups-Runs : (ug : UserGroupSection) → Runs (redact_users_groups re ug)
  unfolding redact_users_groups
  redact_users_groups-Runs ug = search (runs_rules, rule-Runs, shadow-Runs, gecos-Runs)
