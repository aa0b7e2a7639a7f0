-- ===== src/Containerfile/Helpers.antt =====
-- renderers/containerfile/_helpers.py: the summary of a diff, and the kernel arguments to keep.
use yoinkc.Base.{
  String, ◌<>◌, Bool, not, ◌&&◌, ◌||◌, Option, none, some, List, [], ◌∷◌, ◌++◌, map, keep_if, any,
  contains, ◌==◌, string_eq, if◌then◌else◌,
}
use yoinkc.Base.Dict.{Dict, lookup, insert, keys, is_some}
use yoinkc.Base.Text.{is_empty, starts_with}
use yoinkc.Base.Slices.{strip, split_lines, split_words, split_once, text_after}
use yoinkc.Schema.{InspectionSnapshot}
use yoinkc.InstallSet.{sanitize_shell_value}

pub record Changes : Type 0 where
  pub additions : Dict String String
  pub removals : Dict String String
  pub other : List String

-- The key and the value around the first equals sign, or around the first colon if there is none.
unfoldable pub key_value : String → Option (String × String)
unfolding split_once strip
key_value stripped = elim (split_once 61 stripped) [
  | some (key, value) ↦ some (strip key, strip value)
  | none ↦ elim (split_once 58 stripped) [
    | some (key, value) ↦ some (strip key, strip value)
    | none ↦ none
  ]
]

remove_line : String → Option (String × String) → Changes → Changes
unfolding insert
remove_line stripped none c = record c { other = c.other ++ (("removed: " <> stripped) ∷ []) }
remove_line stripped (some (key, value)) c = record c { removals = insert key value c.removals }

add_line : String → Option (String × String) → Changes → Changes
unfolding insert
add_line stripped none c = record c { other = c.other ++ (("added: " <> stripped) ∷ []) }
add_line stripped (some (key, value)) c = record c { additions = insert key value c.additions }

unfoldable pub read_diff_line : String → Changes → Changes
unfolding key_value remove_line add_line starts_with strip text_after
read_diff_line line c =
    let is_header = starts_with line "---" || starts_with line "+++" || starts_with line "@@" in
    let stripped = strip (text_after 1 line) in
    if is_header || is_empty stripped || starts_with stripped "#"
    then c
    else if starts_with line "-"
    then remove_line stripped (key_value stripped) c
    else if starts_with line "+"
    then add_line stripped (key_value stripped) c
    else c

read_diff : List String → Changes → Changes
read_diff [] c = c
read_diff (line ∷ lines) c = read_diff lines (read_diff_line line c)

-- "{key}: {removed} → {added}", or the key was added
change_of : Dict String String → String × String → String
unfolding lookup
change_of removals (key, value) = elim (lookup key removals) [
  | some old ↦ key <> (": " <> (old <> (" → " <> value)))
  | none ↦ key <> (": added (" <> (value <> ")"))
]

or_hint : List String → List String
or_hint [] = "(diff available — see audit report)" ∷ []
or_hint (r ∷ results) = r ∷ results

-- `_summarise_diff`
unfoldable pub summarise_diff : String → List String
unfolding read_diff read_diff_line change_of or_hint keep_if keys contains strip split_lines
summarise_diff diff_text =
    let c =
      read_diff (split_lines (strip diff_text))
        (record { additions = []; removals = []; other = [] }) in
    let removed = keep_if (λ key. not (contains (keys c.additions) key)) (keys c.removals) in
    or_hint (
      map (change_of c.removals) c.additions
      ++ (map (λ key. key <> ": removed") removed ++ c.other))

-- `_KARGS_BOOTLOADER_EXACT`
abbrev pub bootloader_exact : List String
bootloader_exact = "ro" ∷ "rw" ∷ "rhgb" ∷ "quiet" ∷ "splash" ∷ []

-- `_KARGS_BOOTLOADER_PREFIXES`
abbrev pub bootloader_prefixes : List String
bootloader_prefixes =
    "BOOT_IMAGE=" ∷ "root=" ∷ "rootflags=" ∷ "rootfstype=" ∷ "initrd=" ∷ "initramfs="
    ∷ "crashkernel=" ∷ "resume=" ∷ "rd.lvm.lv=" ∷ "rd.luks.uuid=" ∷ "rd.luks.name=" ∷ "rd.md.uuid="
    ∷ "LANG=" ∷ []

-- `_is_bootloader_karg`
unfoldable pub is_bootloader_karg : String → Bool
unfolding contains any starts_with string_eq
is_bootloader_karg karg =
    contains bootloader_exact karg || any (λ prefix. starts_with karg prefix) bootloader_prefixes

-- `_operator_kargs`
unfoldable pub operator_kargs : String → List String
unfolding keep_if is_bootloader_karg sanitize_shell_value split_words
operator_kargs cmdline =
    keep_if (λ karg. not (is_bootloader_karg karg) && is_some (sanitize_shell_value karg))
      (split_words cmdline)

-- `_dhcp_connection_paths`
unfoldable pub dhcp_connection_paths : InspectionSnapshot → List String
unfolding keep_if string_eq
dhcp_connection_paths snapshot = elim snapshot.network [
  | none ↦ []
  | some network ↦
      map (λ c. c.path)
        (keep_if (λ c. not (c.method == "static") && not (is_empty c.path)) network.connections)
]
