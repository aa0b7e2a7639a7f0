-- ===== src/Tests/Redact.antt =====
-- The redaction of two config files and of a shadow entry.
use mathlib.Core.List.{Perm, Permᴰ}
use yoinkc.Base.{
  String, ◌≡◌, refl, true, false, not, none, some, List, [], ◌∷◌, map, All, keep_if, contains,
  pair_eq, string_eq, if◌then◌else◌, arith, nat_eq,
}
use yoinkc.Base.Dict.{lookup}
use yoinkc.Base.Text.{starts_with}
use yoinkc.Base.Slices.{text_length}
use yoinkc.Schema.{
  ConfigFileEntry, ConfigFileKind, ConfigCategory, ConfigSection, NonRpmSoftwareSection,
  InspectionSnapshot,
}
use yoinkc.Tests.Data.{snapshot_of}
use yoinkc.Redact.Registry.{new_registry, get_token}
use yoinkc.Redact.Registry.Tokens
use yoinkc.Redact.Registry.Tokens.{IsConsistent, Grants, new_registry-IsConsistent}
use yoinkc.Redact.Scan.{Scan, ◌>>=◌, report}
use yoinkc.Redact.Texts.{
  Match, Regex, Span, is_skipped, redact_matches, redact_text, splice_all, is_excluded_path,
}
use yoinkc.Redact.Texts.Replaced
use yoinkc.Redact.Texts.Replaced.{span_for}
use yoinkc.Redact.Texts.Splice
use yoinkc.Redact.Texts.Splice.{assembled}
use yoinkc.Redact.Shadow.{redact_shadow_entry}
use yoinkc.Redact.Shadow.Again
use yoinkc.Redact.Sections.{redact_config, redact_non_rpm}
use yoinkc.Redact.Sections.Excluded
use yoinkc.Redact.Sections.Excluded.{IsShut}
use yoinkc.Redact.Sections.Deterministic
use yoinkc.Redact.Snapshot.{redact_sections, on_some}
use yoinkc.Redact.Snapshot.Runs
use yoinkc.Redact.Snapshot.Runs.{final_registry}

-- The match of the pattern of a WiFi password in "psk=abc".
abbrev psk : Match
psk = record {
  start = 0;
  stop = 7;
  whole = "psk=abc";
  lastindex = 2;
  group_one = some "psk=";
  group_two = "abc";
}

-- A stand-in for `re`: it finds one password at the start of a text, and reads the pattern of a path as a prefix.
abbrev wifi : Regex
wifi = record {
  finditer = λ pattern text.
      if starts_with pattern "(psk"
      then if starts_with text "psk=abc" then psk ∷ [] else []
      else [];
  search = λ pattern path. starts_with path pattern;
}

abbrev file : String → String → ConfigFileEntry
file path content = record {
  path = path;
  kind = ConfigFileKind.unowned;
  category = ConfigCategory.other;
  content = content;
  rpm_va_flags = none;
  package_name = none;
  diff_against_rpm = none;
  include = true;
  tie = false;
  tie_winner = false;
  fleet = none;
}

abbrev two_files : List ConfigFileEntry
two_files = file "/etc/wifi" "psk=abc\n" ∷ file "/etc/shadow" "root:x" ∷ []

abbrev config : ConfigSection
config = record { files = two_files }

abbrev start : Scan
start = record { redactions = []; registry = new_registry }

abbrev snapshot : InspectionSnapshot
snapshot = record (snapshot_of none) { config = some config }

redacted_content :
    (redact_text wifi "psk=abc\n" "/etc/wifi" "file" start).0 ≡ "psk=REDACTED_WIFI_PSK_1\n"
unfolding redact_text ◌>>=◌
redacted_content = refl

get_token-Grants_example : Grants "TOKEN" "abc" new_registry (get_token "TOKEN" "abc" new_registry)
get_token-Grants_example =
    Tokens.get_token-Grants "TOKEN" "abc" new_registry new_registry-IsConsistent

found_after_run :
    lookup ("WIFI_PSK", "abc") (final_registry wifi snapshot).seen ≡ some "REDACTED_WIFI_PSK_1"
unfolding lookup redact_sections on_some is_excluded_path starts_with redact_text report
found_after_run = refl

abbrev psk_key : String × String
psk_key = ("WIFI_PSK", "abc")

final_registry-distinct_example : psk_key ≡ psk_key
final_registry-distinct_example =
    Runs.final_registry-distinct wifi snapshot psk_key psk_key "REDACTED_WIFI_PSK_1" found_after_run
      found_after_run

redact_matches-spans_example :
    (redact_matches wifi "WIFI_PSK" "/etc/wifi" "file" "psk=abc" (psk ∷ []) start).0
    ≡ map
        (span_for "WIFI_PSK"
          (redact_matches wifi "WIFI_PSK" "/etc/wifi" "file" "psk=abc" (psk ∷ []) start).1.registry)
        (keep_if (λ m. not (is_skipped "WIFI_PSK" "psk=abc" m)) (psk ∷ []))
redact_matches-spans_example =
    Replaced.redact_matches-spans wifi "WIFI_PSK" "/etc/wifi" "file" "psk=abc" (psk ∷ []) start
      new_registry-IsConsistent

abbrev two_spans : List Span
two_spans =
    record { start = 0; stop = 3; replacement = "A" }
    ∷ record { start = 4; stop = 7; replacement = "B" }
    ∷ []

splice_all-assembled_example : splice_all two_spans "one two" ≡ assembled 0 two_spans "one two"
unfolding text_length
splice_all-assembled_example = Splice.splice_all-assembled two_spans "one two" (omega arith)

redact_shadow_entry-again_example :
    redact_shadow_entry (redact_shadow_entry "root:$6$x:1:" start).0 start
    ≡ ((redact_shadow_entry "root:$6$x:1:" start).0, start)
redact_shadow_entry-again_example =
    Again.redact_shadow_entry-again "root:$6$x:1:" start start new_registry-IsConsistent

redact_config-IsShut_example :
    All (IsShut wifi) (redact_config wifi config start).0.files
    × Perm
        (map (λ f. f.path) (redact_config wifi config start).0.files)
        ("/etc/wifi" ∷ "/etc/shadow" ∷ [])
redact_config-IsShut_example = Excluded.redact_config-IsShut wifi config start

abbrev software : NonRpmSoftwareSection
software = record { items = []; env_files = file "/etc/shadow" "secret" ∷ [] }

redact_non_rpm-excluded_example :
    (redact_non_rpm wifi software start).0.env_files ≡ file "/etc/shadow" "secret" ∷ []
unfolding is_excluded_path starts_with
redact_non_rpm-excluded_example = Excluded.redact_non_rpm-excluded wifi software start (refl, tt)

redact_config_deterministic_example :
    redact_config wifi
      (record config { files = file "/etc/shadow" "root:x" ∷ file "/etc/wifi" "psk=abc\n" ∷ [] })
      start
    ≡ redact_config wifi config start
unfolding contains string_eq
redact_config_deterministic_example =
    Deterministic.redact_config_deterministic wifi config
      (file "/etc/shadow" "root:x" ∷ file "/etc/wifi" "psk=abc\n" ∷ []) start (Permᴰ.swap refl refl)
      (refl, (refl, tt))
