-- ===== src/Redact/Sections.antt =====
-- `redact_snapshot` of redact.py, section by section.
pub mod Runs
pub mod Excluded
pub mod Deterministic
use yoinkc.Base.{
  ℕ, String, ◌<>◌, Bool, true, false, not, ◌&&◌, ◌||◌, Option, none, some, List, [], ◌∷◌, ◌++◌, leb,
  length, ◌==◌, string_eq, nat_eq, if◌then◌else◌,
}
use yoinkc.Base.Text.{is_empty, split, join}
use yoinkc.Base.Slices.{text_before}
use yoinkc.Base.Sort.{sort_by, str_leb, sorted}
use yoinkc.Schema.{
  InspectionSnapshot, ConfigFileEntry, ConfigSection, NetworkSection, FirewallZone,
  ContainerSection, QuadletUnit, RunningContainer, ScheduledTaskSection, GeneratedTimerUnit,
  SystemdTimer, KernelBootSection, ConfigSnippet, NonRpmSoftwareSection, UserGroupSection,
  RedactionFinding,
}
use yoinkc.Redact.Scan.{Redactor, pure, ◌>>=◌, ◌>>◌, report, each_item, if_changed}
use yoinkc.Redact.Texts.{Regex, is_excluded_path, remediation_for_excluded, redact_text}
use yoinkc.Redact.Shadow.{redact_shadow_entry}

-- sorted(items, key=key)
abbrev pub sort_on : {A : Type 0} → (A → String) → List A → List A
sort_on key = sort_by (λ a b. str_leb (key a) (key b))

-- A new text beside the old one differs.
abbrev pub differs : String → String → Bool
differs new old = not (new == old)

abbrev pub excluded_placeholder : String
excluded_placeholder = "# Content excluded (sensitive path). Handle manually.\n"

module _ (re : Regex) where
  abbrev excluded_finding : ConfigFileEntry → RedactionFinding
  excluded_finding entry = record {
    path = entry.path;
    source = "file";
    kind = "excluded";
    pattern = "EXCLUDED_PATH";
    remediation = remediation_for_excluded re entry.path;
    line = none;
    replacement = none;
    detection_method = "excluded_path";
    confidence = none;
  }

  -- A file under an excluded path: reported, unless its content was taken away before.
  unfoldable pub exclude_file : ConfigFileEntry → Redactor ConfigFileEntry
  exclude_file entry = do
    if entry.content == excluded_placeholder then pure tt else report (excluded_finding entry)
    pure (record entry { content = excluded_placeholder; include = false })

  redact_diff : String → Option String → Redactor (Option String)
  redact_diff path none = pure none
  redact_diff path (some diff) =
      let redacted : Redactor (Option String) = do
        new_diff ← redact_text re diff (path <> ":diff") "diff"
        pure (some new_diff)
      in if is_empty diff then pure (some diff) else redacted

  -- One entry of `config.files`. An update by the value that a field has is no change.
  unfoldable pub redact_file : ConfigFileEntry → Redactor (ConfigFileEntry × Bool)
  unfolding exclude_file redact_diff
  redact_file entry =
      let excluded : Redactor (ConfigFileEntry × Bool) = do
        new ← exclude_file entry
        pure (new, true)
      in let redacted : Redactor (ConfigFileEntry × Bool) = do
        new_content ← redact_text re entry.content entry.path "file"
        new_diff ← redact_diff entry.path entry.diff_against_rpm
        pure (record entry { content = new_content; diff_against_rpm = new_diff }, true)
        in if is_excluded_path re entry.path then excluded else redacted

  -- 1. config.files: the new list is stored whether or not a file changed
  unfoldable pub redact_config : ConfigSection → Redactor ConfigSection
  unfolding redact_file each_item sort_by str_leb
  redact_config config = do
    scanned ← each_item redact_file (sort_on (λ f. f.path) config.files)
    pure (record config { files = scanned.0 })

  zone : FirewallZone → Redactor (FirewallZone × Bool)
  zone z = do
    new_content ← redact_text re z.content ("network:firewall_zone/" <> z.name) "file"
    pure (record z { content = new_content }, differs new_content z.content)

  -- 2. firewall zones
  unfoldable pub redact_network : NetworkSection → Redactor NetworkSection
  unfolding zone each_item sort_by str_leb
  redact_network network = do
    scanned ← each_item zone (sort_on (λ z. z.name) network.firewall_zones)
    pure (record network { firewall_zones = if_changed network.firewall_zones scanned })

  quadlet : QuadletUnit → Redactor (QuadletUnit × Bool)
  quadlet u = do
    new_content ← redact_text re u.content ("containers:quadlet/" <> u.name) "file"
    pure (record u { content = new_content }, differs new_content u.content)

  -- c.name or c.id[:12]
  abbrev container_name : RunningContainer → String
  container_name c = if is_empty c.name then text_before 12 c.id else c.name

  variable : String → String → Redactor (String × Bool)
  variable name e = do
    redacted_e ← redact_text re e ("containers:running/" <> (name <> ":env")) "container-env"
    pure (redacted_e, differs redacted_e e)

  running : RunningContainer → Redactor (RunningContainer × Bool)
  running c = do
    scanned ← each_item (variable (container_name c)) (sorted c.env)
    pure (record c { env = if_changed c.env scanned }, scanned.1)

  -- 3. quadlet units and the environment of running containers
  unfoldable pub redact_containers : ContainerSection → Redactor ContainerSection
  unfolding quadlet running variable each_item sort_by sorted str_leb text_before
  redact_containers containers = do
    units ← each_item quadlet (sort_on (λ u. u.name) containers.quadlet_units)
    runs ← each_item running (sort_on container_name containers.running_containers)
    pure (record containers {
      quadlet_units = if_changed containers.quadlet_units units;
      running_containers = if_changed containers.running_containers runs;
    })

  generated_timer : GeneratedTimerUnit → Redactor (GeneratedTimerUnit × Bool)
  generated_timer u = do
    new_svc ←
        redact_text re u.service_content ("scheduled:timer/" <> (u.name <> ":service_content"))
          "timer-cmd"
    new_cmd ← redact_text re u.command ("scheduled:timer/" <> (u.name <> ":command")) "timer-cmd"
    pure (
      record u { service_content = new_svc; command = new_cmd },
      differs new_svc u.service_content || differs new_cmd u.command,
    )

  systemd_timer : SystemdTimer → Redactor (SystemdTimer × Bool)
  systemd_timer t =
      let redacted : Redactor (SystemdTimer × Bool) = do
        new_svc ←
            redact_text re t.service_content
              ("scheduled:systemd_timer/" <> (t.name <> ":service_content")) "timer-cmd"
        pure (record t { service_content = new_svc }, differs new_svc t.service_content)
      in if t.source == "local" then redacted else pure (t, false)

  -- 4. generated timer units and systemd timers
  unfoldable pub redact_scheduled : ScheduledTaskSection → Redactor ScheduledTaskSection
  unfolding generated_timer systemd_timer each_item sort_by str_leb string_eq
  redact_scheduled tasks = do
    units ← each_item generated_timer (sort_on (λ u. u.name) tasks.generated_timer_units)
    timers ← each_item systemd_timer (sort_on (λ t. t.name) tasks.systemd_timers)
    pure (record tasks {
      generated_timer_units = if_changed tasks.generated_timer_units units;
      systemd_timers = if_changed tasks.systemd_timers timers;
    })

  snippet : String → ConfigSnippet → Redactor (ConfigSnippet × Bool)
  snippet label entry = do
    new_content ← redact_text re entry.content ("kernel:" <> (label <> ("/" <> entry.path))) "file"
    pure (record entry { content = new_content }, differs new_content entry.content)

  snippets : String → List ConfigSnippet → Redactor (List ConfigSnippet)
  unfolding snippet each_item sort_by str_leb
  snippets label entries = do
    scanned ← each_item (snippet label) (sort_on (λ e. e.path) entries)
    pure (if_changed entries scanned)

  -- 5. GRUB defaults and the configurations of modules
  unfoldable pub redact_kernel_boot : KernelBootSection → Redactor KernelBootSection
  unfolding snippets
  redact_kernel_boot kernel = do
    new_grub ← redact_text re kernel.grub_defaults "kernel:grub_defaults" "file"
    modules_load_d ← snippets "modules_load_d" kernel.modules_load_d
    modprobe_d ← snippets "modprobe_d" kernel.modprobe_d
    dracut_conf ← snippets "dracut_conf" kernel.dracut_conf
    pure (record kernel {
      grub_defaults = new_grub;
      modules_load_d = modules_load_d;
      modprobe_d = modprobe_d;
      dracut_conf = dracut_conf;
    })

  -- One entry of `env_files`: an excluded file counts as no change.
  unfoldable pub redact_env_file : ConfigFileEntry → Redactor (ConfigFileEntry × Bool)
  unfolding exclude_file
  redact_env_file entry =
      let excluded : Redactor (ConfigFileEntry × Bool) = do
        new ← exclude_file entry
        pure (new, false)
      in let redacted : Redactor (ConfigFileEntry × Bool) = do
        new_content ← redact_text re entry.content entry.path "file"
        pure (record entry { content = new_content }, differs new_content entry.content)
        in if is_excluded_path re entry.path then excluded else redacted

  -- 6. dotenv files: `changed or len(new_env_files) != len(env_files)`
  unfoldable pub redact_non_rpm : NonRpmSoftwareSection → Redactor NonRpmSoftwareSection
  unfolding redact_env_file each_item sort_by str_leb nat_eq
  redact_non_rpm section = do
    scanned ← each_item redact_env_file (sort_on (λ f. f.path) section.env_files)
    let stored = scanned.1 || not (length scanned.0 == length section.env_files)
    pure (record section { env_files = if_changed section.env_files (scanned.0, stored) })

  rule : String → Redactor (String × Bool)
  rule r = do
    new_rule ← redact_text re r "users:sudoers" "file"
    pure (new_rule, differs new_rule r)

  shadow : String → Redactor (String × Bool)
  shadow entry = do new_entry ← redact_shadow_entry entry; pure (new_entry, differs new_entry entry)

  gecos : String → List String → Redactor (String × Bool)
  gecos entry (user ∷ password ∷ uid ∷ gid ∷ comment ∷ rest) = do
    new_gecos ← redact_text re comment ("users:passwd/" <> (user <> ":gecos")) "file"
    let changed = differs new_gecos comment
    pure (
      if changed then join ":" (user ∷ password ∷ uid ∷ gid ∷ new_gecos ∷ rest) else entry,
      changed,
    )
  gecos entry _ = pure (entry, false)

  -- entry.split(":")[0]
  first_field : String → String
  first_field entry = elim (split 58 entry) [ [] ↦ "" | user ∷ rest ↦ user ]

  -- 7. sudoers rules, shadow and passwd entries
  unfoldable pub redact_users_groups : UserGroupSection → Redactor UserGroupSection
  unfolding rule shadow gecos first_field each_item sort_by sorted str_leb split join
  redact_users_groups ug = do
    rules ← each_item rule (sorted ug.sudoers_rules)
    shadows ← each_item shadow (sort_on first_field ug.shadow_entries)
    passwds ← each_item (λ e. gecos e (split 58 e)) (sort_on first_field ug.passwd_entries)
    pure (record ug {
      sudoers_rules = if_changed ug.sudoers_rules rules;
      shadow_entries = if_changed ug.shadow_entries shadows;
      passwd_entries = if_changed ug.passwd_entries passwds;
    })
