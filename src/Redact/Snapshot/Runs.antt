-- ===== src/Redact/Snapshot/Runs.antt =====
-- `redact_snapshot` as a run: what becomes of the findings and of the tokens.
use mathlib.Core.List.{Perm}
use mathlib.Core.Path.{subst}
use yoinkc.Base.{String, ◌≡◌, Option, none, some, List, ◌++◌, pair_eq, string_eq}
use yoinkc.Base.Dict.{lookup}
use yoinkc.Base.Sort.Laws.{sort_by-perm}
use yoinkc.Schema.{InspectionSnapshot, Redaction}
use yoinkc.Redact.Registry.{Registry, new_registry}
use yoinkc.Redact.Registry.Tokens.{new_registry-IsConsistent}
use yoinkc.Redact.Scan.{Scan, Redactor}
use yoinkc.Redact.Scan.Runs.{Runs, runs_rules, Run-adds, Run-IsConsistent}
use yoinkc.Redact.Texts.{Regex}
use yoinkc.Redact.Sections.Runs.{
  redact_config-Runs, redact_network-Runs, redact_containers-Runs, redact_scheduled-Runs,
  redact_kernel_boot-Runs, redact_non_rpm-Runs, redact_users_groups-Runs,
}
use yoinkc.Redact.Snapshot.{on_some, sort_redactions, redact_sections, redact_snapshot}

on_some-Runs :
    {S : Type 0} (f : S → Redactor S) (o : Option S) → ((s : S) → Runs (f s)) → Runs (on_some f o)
unfolding on_some
on_some-Runs f none rf = search runs_rules
on_some-Runs f (some s) rf = search (runs_rules, rf)

module _ (re : Regex) where
  redact_sections-Runs : (snapshot : InspectionSnapshot) → Runs (redact_sections re snapshot)
  unfolding redact_sections
  redact_sections-Runs snapshot =
      search
        (
          runs_rules,
          on_some-Runs,
          redact_config-Runs re,
          redact_network-Runs re,
          redact_containers-Runs re,
          redact_scheduled-Runs re,
          redact_kernel_boot-Runs re,
          redact_non_rpm-Runs re,
          redact_users_groups-Runs re,
        )
        depth 12

  -- The redactions after the call are those of the snapshot and the new ones, in another order: none is lost.
  pub redact_snapshot-redactions :
      (snapshot : InspectionSnapshot)
      → (added : List Redaction) × Perm
          (redact_snapshot re snapshot).redactions
          (snapshot.redactions ++ added)
  unfolding redact_snapshot sort_redactions
  redact_snapshot-redactions snapshot =
      let start : Scan = record { redactions = snapshot.redactions; registry = new_registry } in
      let (added, p) = Run-adds ((redact_sections-Runs snapshot).from start) in
      (
        added,
        subst (Perm (redact_snapshot re snapshot).redactions) p
            (sort_by-perm _ (redact_sections re snapshot start).1.redactions),
      )

  -- The registry when all sections of a snapshot have been scanned.
  abbrev pub final_registry : InspectionSnapshot → Registry
  final_registry snapshot =
      (redact_sections re snapshot
        (record { redactions = snapshot.redactions; registry = new_registry })).1.registry

  -- When all sections of a snapshot have been scanned, two pairs of a label and a secret that have the same
  -- token in the registry are the same pair.
  pub final_registry-distinct :
      (snapshot : InspectionSnapshot) (j k : String × String) (token : String)
      → lookup j (final_registry snapshot).seen ≡ some token
      → lookup k (final_registry snapshot).seen ≡ some token
      → j ≡ k
  final_registry-distinct snapshot j k token =
      let start : Scan = record { redactions = snapshot.redactions; registry = new_registry } in
      (Run-IsConsistent ((redact_sections-Runs snapshot).from start)
          new_registry-IsConsistent).distinct
        j k token
