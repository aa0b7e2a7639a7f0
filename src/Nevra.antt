-- ===== src/Nevra.antt =====
-- Parsing of the output of rpm in inspectors/rpm.py: packages, verified files and version locks.
pub mod RoundTrip
use Prim.Native.Char.{Char, code}
use yoinkc.Base.{
  ℕ, zero, suc, ◌+◌, ◌*◌, String, ◌<>◌, Bool, true, false, not, ◌&&◌, ◌||◌, Option, none, some,
  List, [], ◌∷◌, ltb, leb, length, ◌==◌, string_eq, nat_eq, if◌then◌else◌, Result, ok, raise, Error,
  ◌>>=◌,
}
use yoinkc.Base.Text.{is_empty, is_space, split, join, starts_with}
use yoinkc.Base.Slices.{
  strip, lstrip, split_once, split_last, split_lines, text_before, text_after, text_length,
  holds_text,
}
use yoinkc.Base.Decimal.{to_number}
use yoinkc.Base.Integers.{pos_part, parse_int}
use yoinkc.Schema.{PackageEntry, PackageState, RpmVaEntry, VersionLockEntry}

-- s.isdigit(), for digits of ASCII
is_ascii_digit : Char → Bool
is_ascii_digit c = leb 48 (code c) && leb (code c) 57

only_digits : String → Bool
only_digits String.[] = true
only_digits (String.◌∷◌ c s) = is_ascii_digit c && only_digits s

unfoldable pub is_digits : String → Bool
unfolding is_ascii_digit only_digits
is_digits s = not (is_empty s) && only_digits s

unfoldable pub epoch_of_part : String → Option String
unfolding is_digits string_eq
epoch_of_part epoch_part =
    if is_digits epoch_part
    then some epoch_part
    else if epoch_part == "(none)"
    then some "0"
    else none

-- parts[:-2], parts[-2] and parts[-1]
unfoldable pub last_two : List String → Option (List String × String × String)
last_two [] = none
last_two (x ∷ []) = none
last_two (x ∷ y ∷ []) = some ([], x, y)
last_two (x ∷ y ∷ z ∷ rest) = elim (last_two (y ∷ z ∷ rest)) [
  | none ↦ none
  | some (front, version, release) ↦ some (x ∷ front, version, release)
]

abbrev pub parsed_package : String → String → String → String → String → PackageEntry
parsed_package name epoch version release arch = record {
  name = name;
  epoch = epoch;
  version = version;
  release = release;
  arch = arch;
  state = PackageState.added;
  include = true;
  source_repo = "";
  fleet = none;
}

-- `len(parts) < 3` means that no name is left
named : String → String → Option (List String × String × String) → Option PackageEntry
named epoch arch (some (x ∷ front, version, release)) =
    some (parsed_package (join "-" (x ∷ front)) epoch version release arch)
named epoch arch _ = none

entry_of : Option String → Option (String × String) → Option PackageEntry
unfolding split last_two named join
entry_of (some epoch) (some (base, arch)) = named epoch arch (last_two (split 45 base))
entry_of _ _ = none

parse_parts : Option (String × String) → Option PackageEntry
unfolding split_last entry_of epoch_of_part
parse_parts none = none
parse_parts (some (epoch_part, rest)) = entry_of (epoch_of_part epoch_part) (split_last 46 rest)

-- `_parse_nevr`
unfoldable pub parse_nevr : String → Option PackageEntry
unfolding strip split_once parse_parts
parse_nevr nevra = parse_parts (split_once 58 (strip nevra))

-- The lines that hold a package, and those that do not.
unfoldable pub parse_lines : List String → List PackageEntry × List String
unfolding parse_nevr strip
parse_lines [] = ([], [])
parse_lines (line ∷ lines) =
    let (packages, failed) = parse_lines lines in
    let stripped = strip line in
    let kept : List PackageEntry × List String = elim (parse_nevr stripped) [
      | none ↦ (packages, stripped ∷ failed)
      | some pkg ↦ (pkg ∷ packages, failed)
    ] in
    if is_empty stripped then (packages, failed) else kept

-- The severity of the warning about failed lines: five in a hundred are too many.
unfoldable pub failure_severity : ℕ → ℕ → Option String
failure_severity zero total = none
failure_severity (suc failed) total =
    some (if leb (5 * total) (100 * suc failed) then "warning" else "info")

-- `_parse_rpm_qa`: the packages, and the severity of its warning if it gives one
unfoldable pub parse_rpm_qa : String → List PackageEntry × Option String
unfolding parse_lines split_lines strip failure_severity
parse_rpm_qa stdout =
    let (packages, failed) = parse_lines (split_lines (strip stdout)) in
    (packages, failure_severity (length failed) (length packages + length failed))

va_path : String → String
va_path rest =
    strip (if starts_with rest "c " || starts_with rest "d " then text_after 2 rest else rest)

-- `_parse_rpm_va`, line by line
unfoldable pub parse_va_lines : List String → List RpmVaEntry
unfolding va_path strip lstrip starts_with text_after text_before text_length
parse_va_lines [] = []
parse_va_lines (raw ∷ lines) =
    let entries = parse_va_lines lines in
    let line = strip raw in
    let path = va_path (lstrip (text_after 9 line)) in
    if ltb (text_length line) 11 || is_empty path || starts_with path "/boot/"
    then entries
    else record { path = path; flags = strip (text_before 9 line); package_name = none } ∷ entries

-- `_parse_rpm_va`
unfoldable pub parse_rpm_va : String → List RpmVaEntry
unfolding parse_va_lines strip split_lines
parse_rpm_va stdout = parse_va_lines (split_lines (strip stdout))

-- int(rest[:colon_pos]): with no dash before the colon the number is not negative
unfoldable pub int_of : String → Result ℕ
unfolding parse_int
int_of text = parse_int text >>= λ n. ok (pos_part n)

-- The split of `rest` at a colon that stands before the first dash.
unfoldable pub split_epoch : String → Result (ℕ × String)
unfolding split_once holds_text int_of
split_epoch rest = elim (split_once 58 rest) [
  | none ↦ ok (0, rest)
  | some (epoch, behind) ↦
      if holds_text "-" epoch then ok (0, rest) else int_of epoch >>= λ n. ok (n, behind)
]

starts_with_digit : String → Bool
unfolding is_ascii_digit
starts_with_digit String.[] = false
starts_with_digit (String.◌∷◌ c s) = is_ascii_digit c

-- What stands before and behind the first dash that a digit follows.
unfoldable pub split_version : String → Option (String × String)
unfolding starts_with_digit nat_eq
split_version String.[] = none
split_version (String.◌∷◌ c s) =
    let later : Option (String × String) = elim (split_version s) [
      | none ↦ none
      | some (name, ver_rel) ↦ some (String.◌∷◌ c name, ver_rel)
    ] in
    if code c == 45 && starts_with_digit s then some ("", s) else later

abbrev pub parts_or : Option (String × String) → String → String × String
parts_or none text = (text, "")
parts_or (some parts) text = parts

lock_entry : String → String → ℕ → Option (String × String) → Result VersionLockEntry
unfolding split_last
lock_entry raw arch epoch none = raise Error.value_error
lock_entry raw arch epoch (some (name, ver_rel)) =
    let (version, release) = parts_or (split_last 45 ver_rel) ver_rel in
    ok (record {
      raw_pattern = raw;
      name = name;
      epoch = epoch;
      version = version;
      release = release;
      arch = arch;
      include = true;
      fleet = none;
    })

-- `_parse_nevra_pattern`
unfoldable pub parse_nevra_pattern : String → Result VersionLockEntry
unfolding strip split_last split_epoch split_version lock_entry
parse_nevra_pattern raw_line =
    let s = strip raw_line in
    let (rest, arch) = parts_or (split_last 46 s) s in
    split_epoch rest >>= λ parts. lock_entry s arch parts.0 (split_version parts.1)
