-- ===== src/Preflight/Repos.antt =====
-- `_provider_repo_ids` and `_detect_unreachable_repos` of rpm_preflight.py. configparser is a parameter.
use yoinkc.Base.{
  String, ◌||◌, Option, none, some, List, [], ◌∷◌, ◌++◌, contains, any, string_eq, nat_eq,
  if◌then◌else◌,
}
use yoinkc.Base.Dict.{Dict, upsert, get_or}
use yoinkc.Base.Sort.{unique}
use yoinkc.Base.Text.{is_empty, split}
use yoinkc.Base.Slices.{strip, split_lines, holds_text}
use yoinkc.Schema.{InspectionSnapshot, RepoFile, RepoStatus}

-- `_REPO_FAILURE_PATTERNS`
abbrev pub repo_failure_patterns : List String
repo_failure_patterns =
    "Failed to synchronize cache for repo" ∷ "Failed to download metadata for repo"
    ∷ "Cannot download repomd.xml" ∷ "Errors during downloading metadata for repository" ∷ []

-- parts[1], for a text that holds the separator
second_part : List String → String
second_part (a ∷ b ∷ rest) = b
second_part _ = ""

-- The quoted part of a line.
unfoldable pub quoted_part : String → String
unfolding holds_text split second_part
quoted_part line =
    if holds_text "'" line
    then second_part (split 39 line)
    else if holds_text "\"" line
    then second_part (split 34 line)
    else ""

unfoldable pub unreachable_lines : List String → List String → List RepoStatus
unfolding quoted_part any holds_text contains strip
unreachable_lines seen [] = []
unreachable_lines seen (line ∷ lines) =
    let repo_id = quoted_part line in
    let skipped = unreachable_lines seen lines in
    let added = unreachable_lines (repo_id ∷ seen) lines in
    if any (λ pattern. holds_text pattern line) repo_failure_patterns
    then if is_empty repo_id || contains seen repo_id
      then skipped
      else record {
        repo_id = repo_id;
        repo_name = repo_id;
        error = strip line;
        affected_packages = [];
      }
        ∷ added
    else skipped

-- `_detect_unreachable_repos`
unfoldable pub detect_unreachable_repos : String → List RepoStatus
unfolding unreachable_lines split_lines
detect_unreachable_repos stderr = unreachable_lines [] (split_lines stderr)

-- `parser.sections()` after `read_string`, or none where that raises `configparser.Error`
module _ (sections : String → Option (List String)) where
  unfoldable pub repo_ids_of : RepoFile → List String
  repo_ids_of repo_file =
      if is_empty repo_file.content then [] else unique (get_or (sections repo_file.content) [])

  -- `result.setdefault(provider, set()).update(repo_ids)`
  unfoldable pub attribute :
      List String → List String → Dict String (List String) → Dict String (List String)
  unfolding upsert unique
  attribute repo_ids [] result = result
  attribute repo_ids (provider ∷ providers) result =
      attribute repo_ids providers
        (upsert provider repo_ids (λ ids. unique (ids ++ repo_ids)) result)

  unfoldable pub attribute_files :
      List String → List RepoFile → Dict String (List String) → Dict String (List String)
  unfolding attribute repo_ids_of
  attribute_files providers [] result = result
  attribute_files providers (repo_file ∷ repo_files) result =
      let repo_ids = repo_ids_of repo_file in
      attribute_files providers repo_files (
        if repo_file.is_default_repo
        then result
        else elim repo_ids [ [] ↦ result | id ∷ ids ↦ attribute (id ∷ ids) providers result ])

  -- `_provider_repo_ids`
  unfoldable pub provider_repo_ids : InspectionSnapshot → Dict String (List String)
  unfolding attribute_files
  provider_repo_ids snapshot = elim snapshot.rpm [
    | none ↦ []
    | some rpm ↦ attribute_files rpm.repo_providing_packages rpm.repo_files []
  ]
