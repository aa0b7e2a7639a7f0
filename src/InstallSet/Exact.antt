-- ===== src/InstallSet/Exact.antt =====
-- What `resolve_install_set` returns: a sorted list of safe names, and exactly which names are in it.
use yoinkc.Base.{
  String, ◌≡◌, refl, ◌∙◌, Bool, true, false, not, ◌&&◌, ◌||◌, Option, none, some, List, [], ◌∷◌,
  ◌++◌, map, arith, All, keep_if, contains, contains-append, contains-keep_if, ◌==◌, string_eq, any,
}
use yoinkc.Base.Dict.{is_some}
use yoinkc.Base.Sort.{str_leb, sorted, unique}
use yoinkc.Base.Sort.Laws.{Ascends, sorted-Ascends, contains-sort_by, contains-unique}
use yoinkc.Schema.{InspectionSnapshot, RpmSection, PackageEntry}
use yoinkc.InstallSet.{
  is_shell_unsafe, sanitize_shell_value, raw_names, safe_names, leaf_filter, rpm_names, needs_tuned,
  resolve_install_set,
}

-- An included package of the name.
abbrev pub is_included : String → RpmSection → Bool
is_included n rpm = any (λ p. p.include && n == p.name) rpm.packages_added

contains-included :
    (n : String) (packages : List PackageEntry)
    → contains (map (λ p. p.name) (keep_if (λ p. p.include) packages)) n
      ≡ any (λ p. p.include && n == p.name) packages
unfolding contains keep_if any
contains-included n [] = refl
contains-included n (p ∷ packages) = ground (arith, contains-included n packages)

contains-raw_names :
    (n : String) (rpm : RpmSection) → contains (raw_names rpm) n ≡ is_included n rpm
unfolding raw_names
contains-raw_names n rpm =
    contains-sort_by str_leb
      (unique (map (λ p. p.name) (keep_if (λ p. p.include) rpm.packages_added))) n
    ∙ contains-unique (map (λ p. p.name) (keep_if (λ p. p.include) rpm.packages_added)) n
    ∙ contains-included n rpm.packages_added

contains-safe_names :
    (n : String) (rpm : RpmSection)
    → contains (safe_names rpm) n ≡ (is_included n rpm && not (is_shell_unsafe n))
unfolding safe_names
contains-safe_names n rpm = ground (
  arith,
  contains-keep_if (λ m. is_some (sanitize_shell_value m)) (raw_names rpm) n,
  contains-raw_names n rpm,
)

-- The leaf filter on a name.
abbrev pub is_leaf : String → Option (List String) → Bool → Bool
is_leaf n none no_baseline = true
is_leaf n (some leaves) no_baseline = no_baseline || contains leaves n

-- What the rpm section asks for: an included package of a safe name that passes the leaf filter.
abbrev pub is_wanted : String → Option RpmSection → Bool
is_wanted n none = false
is_wanted n (some rpm) =
    is_included n rpm && not (is_shell_unsafe n) && is_leaf n rpm.leaf_packages rpm.no_baseline

contains-filtered :
    (n : String) (rpm : RpmSection) (leaves : List String)
    → contains
        (sorted (keep_if (λ m. contains leaves m && contains (raw_names rpm) m) (safe_names rpm)))
        n
      ≡ (is_included n rpm && not (is_shell_unsafe n) && contains leaves n)
unfolding sorted
contains-filtered n rpm leaves = ground (
  arith,
  contains-sort_by str_leb
      (keep_if (λ m. contains leaves m && contains (raw_names rpm) m) (safe_names rpm)) n,
  contains-keep_if (λ m. contains leaves m && contains (raw_names rpm) m) (safe_names rpm) n,
  contains-safe_names n rpm,
  contains-raw_names n rpm,
)

contains-leaf_filter :
    (n : String) (leaves : Option (List String)) (rpm : RpmSection)
    → contains (leaf_filter leaves rpm) n
      ≡ (is_included n rpm && not (is_shell_unsafe n) && is_leaf n leaves rpm.no_baseline)
unfolding leaf_filter
contains-leaf_filter n none rpm = ground (arith, contains-safe_names n rpm)
contains-leaf_filter n (some leaves) rpm =
    ground (arith, contains-safe_names n rpm, contains-filtered n rpm leaves)

rpm_names-some :
    (rpm : RpmSection) (p : PackageEntry) (packages : List PackageEntry)
    → rpm.packages_added ≡ p ∷ packages
    → rpm_names (some rpm) ≡ leaf_filter rpm.leaf_packages rpm
unfolding rpm_names
rpm_names-some rpm p packages e = simp e

-- The names of a section, whose list of added packages is given beside it.
contains-packages :
    (n : String) (rpm : RpmSection) (packages : List PackageEntry)
    → rpm.packages_added ≡ packages
    → contains (rpm_names (some rpm)) n ≡ is_wanted n (some rpm)
unfolding rpm_names contains any
contains-packages n rpm [] e = rw e
contains-packages n rpm (p ∷ packages) e =
    rw (rpm_names-some rpm p packages e) (contains-leaf_filter n rpm.leaf_packages rpm)

contains-rpm_names :
    (n : String) (rpm : Option RpmSection) → contains (rpm_names rpm) n ≡ is_wanted n rpm
unfolding rpm_names contains
contains-rpm_names n none = refl
contains-rpm_names n (some rpm) = contains-packages n rpm rpm.packages_added refl

contains-sorted-end :
    (n m : String) (names : List String)
    → contains (sorted (names ++ (m ∷ []))) n ≡ (contains names n || n == m)
unfolding sorted contains
contains-sorted-end n m names =
    ground (arith, contains-sort_by str_leb (names ++ (m ∷ [])) n, contains-append names (m ∷ []) n)

-- For every name n and snapshot, n is among the names to install exactly when an included package of the rpm section
-- has the name, the name is safe for a shell and passes the leaf filter (there is no leaf list, or no baseline, or the list has the name),
-- or n is "tuned" and the kernel section has an active profile with a valid name.
pub contains-resolve_install_set :
    (n : String) (snapshot : InspectionSnapshot)
    → contains (resolve_install_set snapshot) n
      ≡ (is_wanted n snapshot.rpm || (needs_tuned snapshot.kernel_boot && n == "tuned"))
unfolding resolve_install_set
contains-resolve_install_set n snapshot = ground (
  arith,
  contains-rpm_names n snapshot.rpm,
  contains-sorted-end n "tuned" (rpm_names snapshot.rpm),
)

All-keep_if :
    (P : String → Type 0) (p : String → Bool) (xs : List String) → All P xs → All P (keep_if p xs)
unfolding keep_if
All-keep_if P p [] h = tt
All-keep_if P p (x ∷ xs) h = ground (arith, All-keep_if P p xs h.1)

Ascends-keep_if :
    (p : String → Bool) (xs : List String) → Ascends str_leb xs → Ascends str_leb (keep_if p xs)
unfolding keep_if
Ascends-keep_if p [] h = tt
Ascends-keep_if p (x ∷ xs) h =
    ground (arith, Ascends-keep_if p xs h.1, All-keep_if (λ y. str_leb x y ≡ true) p xs h.0)

safe_names-Ascends : (rpm : RpmSection) → Ascends str_leb (safe_names rpm)
unfolding safe_names raw_names
safe_names-Ascends rpm =
    Ascends-keep_if (λ n. is_some (sanitize_shell_value n)) (raw_names rpm)
      (sorted-Ascends (unique (map (λ p. p.name) (keep_if (λ p. p.include) rpm.packages_added))))

leaf_filter-Ascends :
    (leaves : Option (List String)) (rpm : RpmSection) → Ascends str_leb (leaf_filter leaves rpm)
unfolding leaf_filter
leaf_filter-Ascends none rpm = safe_names-Ascends rpm
leaf_filter-Ascends (some leaves) rpm = ground (
  arith,
  safe_names-Ascends rpm,
  sorted-Ascends (keep_if (λ n. contains leaves n && contains (raw_names rpm) n) (safe_names rpm)),
)

rpm_names-Ascends : (rpm : Option RpmSection) → Ascends str_leb (rpm_names rpm)
unfolding rpm_names
rpm_names-Ascends none = tt
rpm_names-Ascends (some rpm) =
    elim rpm.packages_added
      as (λ ps.
        Ascends str_leb (elim ps [ [] ↦ [] | q ∷ qs ↦ leaf_filter rpm.leaf_packages rpm ])) [
          | [] ↦ tt
          | q ∷ qs ↦ leaf_filter-Ascends rpm.leaf_packages rpm
        ]

-- The list of names to install ascends in the order of code points.
pub resolve_install_set-Ascends :
    (snapshot : InspectionSnapshot) → Ascends str_leb (resolve_install_set snapshot)
unfolding resolve_install_set
resolve_install_set-Ascends snapshot = ground (
  arith,
  rpm_names-Ascends snapshot.rpm,
  sorted-Ascends (rpm_names snapshot.rpm ++ ("tuned" ∷ [])),
)
