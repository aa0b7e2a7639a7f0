-- ===== src/Redact/Snapshot.antt =====
-- `redact_snapshot` of redact.py.
pub mod Runs
use yoinkc.Base.{
  ℕ, String, Bool, true, false, not, ◌&&◌, ◌||◌, Option, none, some, List, [], ◌∷◌, leb, ◌==◌,
  string_eq, if◌then◌else◌,
}
use yoinkc.Base.Dict.{get_or}
use yoinkc.Base.Sort.{sort_by}
use yoinkc.Schema.{InspectionSnapshot, Redaction, RedactionFinding, Json, Fields, get}
use yoinkc.Heuristic.{SortKey, key_leb}
use yoinkc.Redact.Registry.{new_registry}
use yoinkc.Redact.Scan.{Scan, Redactor, pure, ◌>>=◌}
use yoinkc.Redact.Texts.{Regex}
use yoinkc.Redact.Sections.{
  redact_config, redact_network, redact_containers, redact_scheduled, redact_kernel_boot,
  redact_non_rpm, redact_users_groups,
}

-- A section that is missing is not scanned.
unfoldable pub on_some : {S : Type 0} → (S → Redactor S) → Option S → Redactor (Option S)
unfolding ◌>>=◌ pure
on_some f none = pure none
on_some f (some s) = do s' ← f s; pure (some s')

-- The path of an older dict; one that is no text is read as the empty text.
plain_path : Option Json → String
plain_path (some (Json.str path)) = path
plain_path _ = ""

-- `_redaction_sort_key`
unfoldable pub redaction_sort_key : Redaction → SortKey
unfolding get plain_path string_eq
redaction_sort_key (Redaction.plain d) = record {
  is_non_file = true;
  source = "";
  path = plain_path (get "path" d);
  line = 0;
}
redaction_sort_key (Redaction.finding r) =
    if r.source == "file"
    then record { is_non_file = false; source = ""; path = r.path; line = get_or r.line 0 }
    else record { is_non_file = true; source = r.source; path = r.path; line = 0 }

unfoldable pub sort_redactions : List Redaction → List Redaction
unfolding sort_by key_leb redaction_sort_key
sort_redactions = sort_by (λ a b. key_leb (redaction_sort_key a) (redaction_sort_key b))

module _ (re : Regex) where
  -- The sections, in the order in which tokens are given.
  unfoldable pub redact_sections : InspectionSnapshot → Redactor InspectionSnapshot
  unfolding redact_config redact_network redact_containers redact_scheduled redact_kernel_boot
      redact_non_rpm redact_users_groups
  redact_sections snapshot = do
    config ← on_some (redact_config re) snapshot.config
    network ← on_some (redact_network re) snapshot.network
    containers ← on_some (redact_containers re) snapshot.containers
    tasks ← on_some (redact_scheduled re) snapshot.scheduled_tasks
    kernel_boot ← on_some (redact_kernel_boot re) snapshot.kernel_boot
    non_rpm ← on_some (redact_non_rpm re) snapshot.non_rpm_software
    users_groups ← on_some (redact_users_groups re) snapshot.users_groups
    pure (record snapshot {
      config = config;
      network = network;
      containers = containers;
      scheduled_tasks = tasks;
      kernel_boot = kernel_boot;
      non_rpm_software = non_rpm;
      users_groups = users_groups;
    })

  -- `redact_snapshot`
  unfoldable pub redact_snapshot : InspectionSnapshot → InspectionSnapshot
  unfolding redact_sections sort_redactions
  redact_snapshot snapshot =
      let (redacted, scan) =
        redact_sections snapshot
          (record { redactions = snapshot.redactions; registry = new_registry }) in
      record redacted { redactions = sort_redactions scan.redactions }
