-- ===== src/Containerfile/Services.antt =====
-- renderers/containerfile/services.py: the units to enable and disable, and the drop-ins.
pub mod Units
use yoinkc.Base.{
  ℕ, ◌+◌, ◌-◌, String, ◌<>◌, Bool, true, false, not, ◌&&◌, ◌||◌, Option, none, some, List, [], ◌∷◌,
  ◌++◌, map, keep_if, contains, length, ltb, ◌==◌, string_eq, if◌then◌else◌,
}
use yoinkc.Base.Dict.{Dict, lookup, insert, get_or, is_some, values}
use yoinkc.Base.Text.{is_empty, starts_with, split, join, decimal}
use yoinkc.Schema.{
  InspectionSnapshot, ScheduledTaskSection, SystemdTimer, GeneratedTimerUnit, ServiceSection,
  ServiceStateChange, SystemdDropIn, RpmSection, PackageEntry,
}
use yoinkc.InstallSet.{sanitize_shell_value}
use yoinkc.Containerfile.DropIns.{drop_in_lines}

abbrev unit_names : String → List String
unit_names name = (name <> ".timer") ∷ (name <> ".service") ∷ []

local_timer_units : List SystemdTimer → List String
unfolding string_eq
local_timer_units [] = []
local_timer_units (t ∷ timers) =
    let rest = local_timer_units timers in
    if t.source == "local" && not (is_empty t.name) then unit_names t.name ++ rest else rest

generated_units : List GeneratedTimerUnit → List String
generated_units [] = []
generated_units (u ∷ units) =
    let rest = generated_units units in
    if u.include && not (is_empty u.name) then unit_names u.name ++ rest else rest

-- `_config_tree_units`
unfoldable pub config_tree_units : InspectionSnapshot → List String
unfolding local_timer_units generated_units
config_tree_units snapshot = elim snapshot.scheduled_tasks [
  | none ↦ []
  | some st ↦ local_timer_units st.systemd_timers ++ generated_units st.generated_timer_units
]

-- `unit_owner`: a later state change of a unit wins
unfoldable pub unit_owners : List ServiceStateChange → Dict String String → Dict String String
unfolding insert
unit_owners [] owners = owners
unit_owners (sc ∷ state_changes) owners = elim sc.owning_package [
  | none ↦ unit_owners state_changes owners
  | some owner ↦
      unit_owners state_changes (if is_empty owner then owners else insert sc.unit owner owners)
]

all_deps : Dict String (List String) → List String
all_deps [] = []
all_deps ((leaf, deps) ∷ tree) = deps ++ all_deps tree

-- `installable`, of an rpm section
unfoldable pub installable_names : RpmSection → List String
unfolding all_deps keep_if
installable_names rpm = get_or rpm.baseline_package_names [] ++ (elim rpm.leaf_packages [
  | some leaves ↦ leaves ++ all_deps (get_or rpm.leaf_dep_tree [])
  | none ↦ map (λ p. p.name) (keep_if (λ p. p.include) rpm.packages_added)
])

unfoldable pub installable : InspectionSnapshot → List String
unfolding installable_names
installable snapshot = elim snapshot.rpm [ none ↦ [] | some rpm ↦ installable_names rpm ]

-- `_unit_installable`, of the owner of the unit
abbrev pub owner_present : List String → Option String → Bool
owner_present [] owner = true
owner_present (p ∷ packages) none = true
owner_present (p ∷ packages) (some owner) = contains (p ∷ packages) owner

-- What the section knows of the units.
pub record UnitLists : Type 0 where
  pub enabled : List String
  pub disabled : List String
  pub in_config_tree : List String
  pub owners : Dict String String
  pub packages : List String

unfoldable pub is_installable : UnitLists → String → Bool
unfolding lookup contains
is_installable l unit = owner_present l.packages (lookup unit l.owners)

abbrev pub is_safe : String → Bool
is_safe unit = is_some (sanitize_shell_value unit)

-- `safe_enabled` and `safe_disabled`, before the orphans are taken out
unfoldable pub safe_enabled : UnitLists → List String
unfolding keep_if contains sanitize_shell_value
safe_enabled l = keep_if (λ u. is_safe u && not (contains l.in_config_tree u)) l.enabled

unfoldable pub safe_disabled : UnitLists → List String
unfolding keep_if sanitize_shell_value
safe_disabled l = keep_if is_safe l.disabled

unfoldable pub deferred : UnitLists → List String
unfolding keep_if contains
deferred l = keep_if (contains l.in_config_tree) l.enabled

unfoldable pub kept_units : UnitLists → List String → List String
unfolding keep_if is_installable
kept_units l = keep_if (is_installable l)

unfoldable pub orphan_units : UnitLists → List String → List String
unfolding keep_if is_installable
orphan_units l = keep_if (λ u. not (is_installable l u))

-- `unsafe_count`
unfoldable pub unsafe_count : UnitLists → ℕ
unfolding kept_units orphan_units safe_enabled safe_disabled deferred
unsafe_count l =
    (length l.enabled
      - length (kept_units l (safe_enabled l))
      - length (deferred l)
      - length (orphan_units l (safe_enabled l)))
    + (length l.disabled
        - length (kept_units l (safe_disabled l))
        - length (orphan_units l (safe_disabled l)))

abbrev orphan_line : UnitLists → String → String
orphan_line l u =
    "# "
    <> (u
        <> (" — skipped (package "
            <> (get_or (lookup u l.owners) "" <> " not in dnf install line)")))

-- A line, if there is something to say.
line_if : List String → String → List String
line_if [] line = []
line_if (x ∷ xs) line = line ∷ []

unfoldable pub unit_lines : UnitLists → List String
unfolding unsafe_count line_if kept_units orphan_units safe_enabled safe_disabled deferred decimal
    join lookup
unit_lines l =
    let to_enable = kept_units l (safe_enabled l) in
    let to_disable = kept_units l (safe_disabled l) in
    let fixme =
      "# FIXME: "
      <> (decimal (unsafe_count l)
          <> " unit name(s) contained unsafe characters and were skipped") in
    let note =
      "# Note: "
      <> (decimal (length (deferred l))
          <> (" config-tree unit(s) enabled later in Scheduled Tasks: "
              <> join ", " (deferred l))) in
    let detected =
      "# Detected: "
      <> (decimal (length to_enable)
          <> (" non-default enabled, " <> (decimal (length to_disable) <> " disabled"))) in
    ("# === Service Enablement ===" ∷ [])
    ++ ((if ltb 0 (unsafe_count l) then fixme ∷ [] else [])
        ++ (line_if (deferred l) note
            ++ ((detected ∷ [])
                ++ (line_if to_enable ("RUN systemctl enable " <> join " " to_enable)
                    ++ (line_if to_disable ("RUN systemctl disable " <> join " " to_disable)
                        ++ (map (orphan_line l) (orphan_units l (safe_enabled l))
                            ++ (map (orphan_line l) (orphan_units l (safe_disabled l))
                                ++ ("" ∷ []))))))))

unfoldable pub unit_lists : InspectionSnapshot → ServiceSection → UnitLists
unfolding config_tree_units unit_owners installable
unit_lists snapshot services = record {
  enabled = services.enabled_units;
  disabled = services.disabled_units;
  in_config_tree = config_tree_units snapshot;
  owners = unit_owners services.state_changes [];
  packages = installable snapshot;
}

-- `section_lines`
unfoldable pub service_lines : InspectionSnapshot → List String
unfolding unit_lines unit_lists drop_in_lines keep_if
service_lines snapshot = elim snapshot.services [
  | none ↦ []
  | some services ↦
      let units = unit_lines (unit_lists snapshot services) in
      (elim (services.enabled_units ++ services.disabled_units) [ [] ↦ [] | _ ∷ _ ↦ units ])
      ++ drop_in_lines (keep_if (λ d. d.include) services.drop_ins)
]
