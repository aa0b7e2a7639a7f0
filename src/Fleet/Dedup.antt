-- ===== src/Fleet/Dedup.antt =====
-- The unions without prevalence of fleet/merge.py, and `_deduplicate_dicts`.
pub mod Strings
use yoinkc.Base.{
  ℕ, String, Bool, true, false, Option, none, some, List, [], ◌∷◌, ◌++◌, map, length, contains, Eq,
  ◌==◌, string_eq, pair_eq, Result, ok, raise, index_error, ◌>>=◌, if◌then◌else◌,
}
use yoinkc.Base.Dict.{Dict, values, upsert, get_or}
use yoinkc.Schema.{
  Json, null, num, str, arr, obj, Fields, field, end, get, put, texts, HashKey, HashKey_eq,
  hash_key, RedactionFinding, Redaction, finding, plain,
}

-- The inner loop of `_deduplicate_strings`; `seen` holds what `result` holds.
unfoldable pub dedup_items : List String → List String → List String
unfolding contains
dedup_items result [] = result
dedup_items result (item ∷ items) =
    dedup_items (if contains result item then result else result ++ (item ∷ [])) items

dedup_lists : List String → List (List String) → List String
dedup_lists result [] = result
dedup_lists result (items ∷ all_lists) = dedup_lists (dedup_items result items) all_lists

-- `_deduplicate_strings`
unfoldable pub deduplicate_strings : List (List String) → List String
unfolding dedup_items dedup_lists
deduplicate_strings = dedup_lists []

-- [v for v in raw if v is not None]
unfoldable pub present : {A : Type 0} → List (Option A) → List A
present [] = []
present (none ∷ raw) = present raw
present (some v ∷ raw) = v ∷ present raw

-- `_deduplicate_optional_strings`
dedup_present : List (List String) → Option (List String)
dedup_present [] = none
dedup_present (v ∷ vs) = some (deduplicate_strings (v ∷ vs))

unfoldable pub deduplicate_optional_strings : List (Option (List String)) → Option (List String)
unfolding present dedup_present deduplicate_strings
deduplicate_optional_strings raw = dedup_present (present raw)

pub record DictEntry : Type 0 where
  pub item : Fields
  pub hosts : List String

-- The inner loop of `_deduplicate_dicts`. A key that cannot be hashed is a `TypeError`.
unfoldable pub absorb_dicts :
    String → String → List Fields → Dict HashKey DictEntry → Result (Dict HashKey DictEntry)
absorb_dicts key_field hostname [] seen = ok seen
absorb_dicts key_field hostname (item ∷ items) seen = do
  k ← hash_key (get_or (get key_field item) (str ""))
  absorb_dicts key_field hostname items (
      upsert k (record { item = item; hosts = hostname ∷ [] })
        (λ entry. record entry { hosts = entry.hosts ++ (hostname ∷ []) }) seen)

unfoldable pub absorb_dict_lists :
    String
    → List (List Fields)
    → List String
    → Dict HashKey DictEntry
    → Result (Dict HashKey DictEntry)
unfolding absorb_dicts
absorb_dict_lists key_field [] host_names seen = ok seen
absorb_dict_lists key_field (items ∷ all_lists) [] seen = raise index_error
absorb_dict_lists key_field (items ∷ all_lists) (hostname ∷ host_names) seen = do
  seen' ← absorb_dicts key_field hostname items seen
  absorb_dict_lists key_field all_lists host_names seen'

-- item["fleet"] = {"count": …, "total": …, "hosts": …}
unfoldable pub finish_dict : ℕ → DictEntry → Fields
finish_dict total entry =
    put "fleet"
      (obj (
        field "count" (num (length entry.hosts))
          (field "total" (num total) (field "hosts" (arr (texts entry.hosts)) end))))
      entry.item

-- `_deduplicate_dicts`
unfoldable pub deduplicate_dicts :
    List (List Fields) → String → ℕ → List String → Result (List Fields)
unfolding absorb_dict_lists finish_dict values hash_key
deduplicate_dicts all_lists key_field total host_names = do
  seen ← absorb_dict_lists key_field all_lists host_names []
  ok (map (finish_dict total) (values seen))

-- The identity of a warning or a redaction: five fields of a dict, or four attributes of a finding.
pub data WarningKey : Type 0 where
  dict_key : HashKey → HashKey → HashKey → HashKey → HashKey → WarningKey
  finding_key : String → String → String → Option String → WarningKey

Option_String-discrete : Discrete (Option String)
Option_String-discrete = hlevel string_eq.dec

WarningKey-discrete : Discrete WarningKey
WarningKey-discrete = hlevel (string_eq.dec, HashKey_eq.dec, Option_String-discrete)

instance unfoldable pub WarningKey_eq : Eq WarningKey
unfolding WarningKey-discrete Option_String-discrete
WarningKey_eq = record { dec = WarningKey-discrete }

part : Fields → String → Result HashKey
part item k = hash_key (get_or (get k item) (str ""))

unfoldable pub warning_key : Redaction → Result WarningKey
unfolding part hash_key
warning_key (finding item) = ok (finding_key item.path item.pattern item.source item.replacement)
warning_key (plain item) = do
  path ← part item "path"
  pattern_name ← part item "pattern"
  source ← part item "source"
  message ← part item "message"
  line ← part item "line"
  ok (dict_key path pattern_name source message line)

-- One item of `_deduplicate_warning_dicts`, with the set of keys and the result.
dedup_warning_items :
    List WarningKey → List Redaction → List Redaction → Result (List WarningKey × List Redaction)
dedup_warning_items seen result [] = ok (seen, result)
dedup_warning_items seen result (item ∷ items) = do
  key ← warning_key item
  elim (contains seen key) [
    | true ↦ dedup_warning_items seen result items
    | false ↦ dedup_warning_items (key ∷ seen) (result ++ (item ∷ [])) items
  ]

dedup_warning_lists :
    List WarningKey → List Redaction → List (List Redaction) → Result (List Redaction)
dedup_warning_lists seen result [] = ok result
dedup_warning_lists seen result (items ∷ all_lists) = do
  (seen', result') ← dedup_warning_items seen result items
  dedup_warning_lists seen' result' all_lists

-- `_deduplicate_warning_dicts`
unfoldable pub deduplicate_warning_dicts : List (List Redaction) → Result (List Redaction)
unfolding dedup_warning_items dedup_warning_lists warning_key contains
deduplicate_warning_dicts = dedup_warning_lists [] []

-- The deps of one tree, added to the list of a leaf.
abbrev add_deps : List String → List String → List String
add_deps existing deps = dedup_items existing deps

absorb_tree : Dict String (List String) → Dict String (List String) → Dict String (List String)
absorb_tree merged [] = merged
absorb_tree merged ((leaf, deps) ∷ tree) =
    absorb_tree (upsert leaf deps (λ old. add_deps old deps) merged) tree

absorb_trees :
    Dict String (List String)
    → List (Option (Dict String (List String)))
    → Dict String (List String)
absorb_trees merged [] = merged
absorb_trees merged (none ∷ all_trees) = absorb_trees merged all_trees
absorb_trees merged (some tree ∷ all_trees) = absorb_trees (absorb_tree merged tree) all_trees

some_if_any : Dict String (List String) → Option (Dict String (List String))
some_if_any [] = none
some_if_any (e ∷ d) = some (e ∷ d)

-- `_merge_dep_trees`
unfoldable pub merge_dep_trees :
    List (Option (Dict String (List String))) → Option (Dict String (List String))
unfolding absorb_tree absorb_trees some_if_any dedup_items
merge_dep_trees all_trees = some_if_any (absorb_trees [] all_trees)
