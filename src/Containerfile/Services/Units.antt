-- ===== src/Containerfile/Services/Units.antt =====
-- Which units the section enables and disables, and that it accounts for all of them.
use yoinkc.Base.{
  ◌+◌, String, ◌≡◌, refl, Bool, true, false, not, ◌&&◌, Option, none, some, List, [], ◌∷◌, keep_if,
  contains, contains-keep_if, length, arith, string_eq,
}
use yoinkc.Base.Dict.{lookup}
use yoinkc.InstallSet.{is_shell_unsafe, sanitize_shell_value}
use yoinkc.Containerfile.Services.{
  UnitLists, is_safe, owner_present, is_installable, safe_enabled, safe_disabled, deferred,
  kept_units, orphan_units, unsafe_count,
}

is_safe-shell : (u : String) → is_safe u ≡ not (is_shell_unsafe u)
unfolding sanitize_shell_value
is_safe-shell u = ground arith

contains-safe_enabled :
    (l : UnitLists) (u : String)
    → contains (safe_enabled l) u
      ≡ (contains l.enabled u && not (is_shell_unsafe u) && not (contains l.in_config_tree u))
unfolding safe_enabled
contains-safe_enabled l u = ground (
  arith,
  contains-keep_if (λ v. is_safe v && not (contains l.in_config_tree v)) l.enabled u,
  is_safe-shell u,
)

contains-safe_disabled :
    (l : UnitLists) (u : String)
    → contains (safe_disabled l) u ≡ (contains l.disabled u && not (is_shell_unsafe u))
unfolding safe_disabled
contains-safe_disabled l u = ground (arith, contains-keep_if is_safe l.disabled u, is_safe-shell u)

abbrev pub is_nil : List String → Bool
is_nil [] = true
is_nil (x ∷ xs) = false

owner_present-missing :
    (packages : List String) (owner : Option String)
    → owner_present packages owner
      ≡ not (elim owner [
        | none ↦ false
        | some name ↦ not (is_nil packages) && not (contains packages name)
      ])
owner_present-missing [] none = refl
owner_present-missing [] (some name) = refl
owner_present-missing (p ∷ packages) none = refl
owner_present-missing (p ∷ packages) (some name) = ground arith

is_installable-owner :
    (l : UnitLists) (u : String)
    → is_installable l u
      ≡ not (elim (lookup u l.owners) [
        | none ↦ false
        | some name ↦ not (is_nil l.packages) && not (contains l.packages name)
      ])
unfolding is_installable
is_installable-owner l u = owner_present-missing l.packages (lookup u l.owners)

-- A unit is enabled exactly if it is listed as enabled, safe for a shell and not from the config tree, and disabled
-- exactly if it is listed as disabled and safe for a shell; in both cases only if the unit has no recorded owner, no
-- packages are recorded, or its owner is one of the recorded packages.
pub kept_units-enables :
    (l : UnitLists) (u : String)
    → (let lost_package : Bool = elim (lookup u l.owners) [
      | none ↦ false
      | some owner ↦ not (is_nil l.packages) && not (contains l.packages owner)
    ] in
        (contains (kept_units l (safe_enabled l)) u ≡ (
          contains l.enabled u
          && not (is_shell_unsafe u)
          && not (contains l.in_config_tree u)
          && not lost_package))
        × (contains (kept_units l (safe_disabled l)) u
            ≡ (contains l.disabled u && not (is_shell_unsafe u) && not lost_package)))
unfolding kept_units
kept_units-enables l u = (
  ground (
    arith,
    contains-keep_if (is_installable l) (safe_enabled l) u,
    contains-safe_enabled l u,
    is_installable-owner l u,
  ),
  ground (
    arith,
    contains-keep_if (is_installable l) (safe_disabled l) u,
    contains-safe_disabled l u,
    is_installable-owner l u,
  ),
)

module _ (p q : String → Bool) where
  length-split :
      (xs : List String) → length (keep_if p xs) + length (keep_if (λ u. not (p u)) xs) ≡ length xs
  unfolding keep_if
  length-split [] = omega arith
  length-split (x ∷ xs) = ground (arith, length-split xs)

  length-three_ways :
      (xs : List String)
      → length (keep_if (λ u. p u && not (q u)) xs)
          + length (keep_if q xs)
          + length (keep_if (λ u. not (p u) && not (q u)) xs)
        ≡ length xs
  unfolding keep_if
  length-three_ways [] = omega arith
  length-three_ways (x ∷ xs) = ground (arith, length-three_ways xs)

-- The count of unsafe names is the number of enabled units that are unsafe and not from the config tree, and of
-- disabled units that are unsafe: every unit is enabled or disabled, deferred, skipped for its package, or counted.
pub unsafe_count-counts :
    (l : UnitLists)
    → unsafe_count l
      ≡ length (keep_if (λ u. not (is_safe u) && not (contains l.in_config_tree u)) l.enabled)
        + length (keep_if (λ u. not (is_safe u)) l.disabled)
unfolding unsafe_count kept_units orphan_units safe_enabled safe_disabled deferred
unsafe_count-counts l = omega (
  arith,
  length-three_ways is_safe (contains l.in_config_tree) l.enabled,
  length-split (is_installable l) is_safe (safe_enabled l),
  length-split (is_installable l) is_safe (safe_disabled l),
  length-split is_safe is_safe l.disabled,
)
