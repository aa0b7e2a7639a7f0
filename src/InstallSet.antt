-- ===== src/InstallSet.antt =====
-- install_set.py: the packages to install, with the filters of renderers/containerfile/_helpers.py.
pub mod Exact
use Prim.Native.Char.{Char, code}
use yoinkc.Base.{
  ℕ, String, Bool, true, false, not, ◌&&◌, ◌||◌, Option, none, some, List, [], ◌∷◌, ◌++◌, map,
  keep_if, contains, leb, ◌==◌, nat_eq, string_eq, if◌then◌else◌,
}
use yoinkc.Base.Dict.{is_some}
use yoinkc.Base.Text.{starts_with, is_empty}
use yoinkc.Base.Sort.{unique, sorted}
use yoinkc.Schema.{InspectionSnapshot, RpmSection, PackageEntry, KernelBootSection}

-- `_SHELL_UNSAFE_RE.search`: a newline, a return, one of ; ` | or the two characters $(
unfoldable pub is_shell_unsafe : String → Bool
unfolding starts_with nat_eq
is_shell_unsafe String.[] = false
is_shell_unsafe (String.◌∷◌ c s) =
    code c == 10
    || code c == 13
    || code c == 59
    || code c == 96
    || code c == 124
    || starts_with (String.◌∷◌ c s) "$("
    || is_shell_unsafe s

-- `_sanitize_shell_value`
unfoldable pub sanitize_shell_value : String → Option String
unfolding is_shell_unsafe
sanitize_shell_value value = if is_shell_unsafe value then none else some value

is_profile_char : Char → Bool
is_profile_char ch =
    let c = code ch in
    (leb 97 c && leb c 122)
    || (leb 65 c && leb c 90)
    || (leb 48 c && leb c 57)
    || c == 95
    || c == 45

-- The characters up to the end, or up to a newline that ends the text.
profile_tail : String → Bool
profile_tail String.[] = true
profile_tail (String.◌∷◌ c s) =
    (code c == 10 && is_empty s) || (is_profile_char c && profile_tail s)

-- `_TUNED_PROFILE_RE.match`
unfoldable pub is_tuned_profile : String → Bool
unfolding is_profile_char profile_tail nat_eq
is_tuned_profile String.[] = false
is_tuned_profile (String.◌∷◌ c s) = is_profile_char c && profile_tail s

-- sorted(set(p.name for p in packages_added if p.include))
unfoldable pub raw_names : RpmSection → List String
unfolding keep_if unique sorted
raw_names rpm = sorted (unique (map (λ p. p.name) (keep_if (λ p. p.include) rpm.packages_added)))

unfoldable pub safe_names : RpmSection → List String
unfolding raw_names sanitize_shell_value
safe_names rpm = keep_if (λ n. is_some (sanitize_shell_value n)) (raw_names rpm)

-- The leaf filter, when a baseline exists.
leaf_filter : Option (List String) → RpmSection → List String
leaf_filter none rpm = safe_names rpm
leaf_filter (some leaves) rpm =
    if rpm.no_baseline
    then safe_names rpm
    else sorted (keep_if (λ n. contains leaves n && contains (raw_names rpm) n) (safe_names rpm))

rpm_names : Option RpmSection → List String
rpm_names none = []
rpm_names (some rpm) = elim rpm.packages_added [
  | [] ↦ []
  | p ∷ ps ↦ leaf_filter rpm.leaf_packages rpm
]

unfoldable pub needs_tuned : Option KernelBootSection → Bool
unfolding is_tuned_profile
needs_tuned none = false
needs_tuned (some k) = not (is_empty k.tuned_active) && is_tuned_profile k.tuned_active

-- `resolve_install_set`
unfoldable pub resolve_install_set : InspectionSnapshot → List String
unfolding rpm_names leaf_filter safe_names needs_tuned contains string_eq sorted
resolve_install_set snapshot =
    let result = rpm_names snapshot.rpm in
    if needs_tuned snapshot.kernel_boot && not (contains result "tuned")
    then sorted (result ++ ("tuned" ∷ []))
    else result
