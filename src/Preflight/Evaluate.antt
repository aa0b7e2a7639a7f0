-- ===== src/Preflight/Evaluate.antt =====
-- What `_run_checks_in_container` of rpm_preflight.py concludes from the answers of the commands.
use yoinkc.Base.{
  ℕ, String, ◌<>◌, Bool, true, false, not, ◌&&◌, ◌||◌, Option, none, some, List, [], ◌∷◌, ◌++◌, map,
  keep_if, contains, length, ◌==◌, string_eq, nat_eq, if◌then◌else◌,
}
use yoinkc.Base.Dict.{Dict, lookup, get_or}
use yoinkc.Base.Sort.{sorted}
use yoinkc.Base.Text.{is_empty, join, decimal}
use yoinkc.Base.Slices.{strip, lower, split_lines, split_words, text_before}
use yoinkc.Schema.{RepoStatus, PreflightResult}
use yoinkc.Executor.{RunResult, failed}

abbrev pub is_nonempty : {A : Type 0} → List A → Bool
is_nonempty [] = false
is_nonempty (x ∷ xs) = true

-- What the checks know when the commands have run.
pub record Findings : Type 0 where
  pub source_repos : Dict String String
  pub bootstrap_failed_providers : List String
  pub failed_repo_ids : List String
  pub repoquery : RunResult
  pub repo_unreachable : List RepoStatus
  pub repos_queried : List String
  pub repo_packages : List String
  pub direct_installs : List String
  pub base_image : String
  pub timestamp : String

-- source_repos.get(name, "")
unfoldable pub repo_of : Dict String String → String → String
unfolding lookup
repo_of source_repos name = get_or (lookup name source_repos) ""

-- `repo_status.affected_packages = …`
unfoldable pub with_affected : Dict String String → List String → RepoStatus → RepoStatus
unfolding keep_if repo_of sorted
with_affected source_repos repo_packages status = record status {
  affected_packages =
      sorted (keep_if (λ name. repo_of source_repos name == status.repo_id) repo_packages);
}

-- The first word of each line that has one.
first_words : List String → List String
first_words [] = []
first_words (line ∷ lines) = elim (split_words line) [
  | [] ↦ first_words lines
  | word ∷ words ↦ word ∷ first_words lines
]

unfoldable pub repos_of : RunResult → List String
unfolding first_words split_words split_lines
repos_of repolist = if failed repolist then [] else first_words (split_lines repolist.stdout)

-- `found_names`
unfoldable pub found_names : String → List String
unfolding keep_if strip split_lines
found_names stdout = keep_if (λ name. not (is_empty name)) (map strip (split_lines stdout))

-- A package that was not found and whose repo comes from a provider that could not be installed.
unfoldable pub is_unverifiable : Findings → String → Bool
unfolding repo_of strip lower contains
is_unverifiable f pkg =
    let pkg_source = lower (strip (repo_of f.source_repos pkg)) in
    contains f.failed_repo_ids pkg_source || contains (map lower f.failed_repo_ids) pkg_source

abbrev pub unreachable_ids : Findings → List String
unreachable_ids f = map (λ status. status.repo_id) f.repo_unreachable

abbrev pub empty_result : Findings → PreflightResult
empty_result f = record {
  status = "failed";
  status_reason = none;
  available = [];
  unavailable = [];
  unverifiable = [];
  direct_install = f.direct_installs;
  repo_unreachable = [];
  base_image = f.base_image;
  repos_queried = f.repos_queried;
  timestamp = f.timestamp;
}

-- f"{n} repo(s) unreachable"
abbrev pub unreachable_reason : Findings → String
unreachable_reason f = decimal (length f.repo_unreachable) <> " repo(s) unreachable"

-- The query failed and returned no name.
unfoldable pub no_answer : Findings → PreflightResult
unfolding contains decimal strip text_before
no_answer f = elim f.repo_unreachable [
  | [] ↦ record (empty_result f) {
    status_reason = some ("dnf repoquery failed: " <> text_before 200 (strip f.repoquery.stderr));
  }
  | _ ∷ _ ↦
      if covers (f.repos_queried ++ unreachable_ids f) (unreachable_ids f)
      then record (empty_result f) {
        status_reason = some "all repos unreachable — no meaningful validation possible";
        repo_unreachable = f.repo_unreachable;
      }
      else record (empty_result f) {
        status = "partial";
        status_reason = some (unreachable_reason f);
        repo_unreachable = f.repo_unreachable;
      }
]
  where
    covers : List String → List String → Bool
    covers [] ids = true
    covers (x ∷ xs) ids = contains ids x && covers xs ids

-- "; ".join(reasons) if reasons else None
reasons_of : List String → Option String
reasons_of [] = none
reasons_of (r ∷ rs) = some (join "; " (r ∷ rs))

provider_names : Findings → String
provider_names f = join ", " (sorted f.bootstrap_failed_providers)

partial_reason : Findings → ℕ → Option String
partial_reason f unverified = reasons_of (bootstrap_reasons ++ unreachable_reasons)
  where
    bootstrap_reasons : List String
    bootstrap_reasons = elim f.bootstrap_failed_providers [
      | [] ↦ []
      | _ ∷ _ ↦
          ("repo-providing package(s) "
            <> (provider_names f
                <> (" unavailable; " <> (decimal unverified <> " package(s) unverifiable"))))
          ∷ []
    ]

    unreachable_reasons : List String
    unreachable_reasons = elim f.repo_unreachable [ [] ↦ [] | _ ∷ _ ↦ unreachable_reason f ∷ [] ]

unfoldable pub not_found : Findings → List String
unfolding keep_if sorted contains found_names
not_found f =
    sorted (keep_if (λ n. not (contains (found_names f.repoquery.stdout) n)) f.repo_packages)

-- `unverifiable`, where the bootstrap failed
unfoldable pub unverifiable_names : Findings → List String
unfolding keep_if is_unverifiable
unverifiable_names f =
    if is_nonempty f.bootstrap_failed_providers
    then keep_if (is_unverifiable f) (not_found f)
    else []

unfoldable pub unavailable_names : Findings → List String
unfolding keep_if is_unverifiable repo_of contains
unavailable_names f =
    keep_if (λ pkg. not (contains (unreachable_ids f) (repo_of f.source_repos pkg)))
      (if is_nonempty f.bootstrap_failed_providers
        then keep_if (λ pkg. not (is_unverifiable f pkg)) (not_found f)
        else not_found f)

-- The query returned names.
unfoldable pub answer : Findings → PreflightResult
unfolding keep_if sorted contains found_names not_found unverifiable_names unavailable_names
    partial_reason reasons_of provider_names decimal
answer f =
    let unverifiable = unverifiable_names f in
    let partial = is_nonempty unverifiable || is_nonempty f.repo_unreachable in
    record (empty_result f) {
      status = if partial then "partial" else "completed";
      status_reason = if partial then partial_reason f (length unverifiable) else none;
      available = sorted (keep_if (contains (found_names f.repoquery.stdout)) f.repo_packages);
      unavailable = unavailable_names f;
      unverifiable =
          map
            (λ pkg. record {
              name = pkg;
              reason = "repo-providing package(s) " <> (provider_names f <> " unavailable");
            })
            unverifiable;
      repo_unreachable = f.repo_unreachable;
    }

unfoldable pub evaluate : Findings → PreflightResult
unfolding no_answer answer strip
evaluate f =
    if failed f.repoquery && is_empty (strip f.repoquery.stdout) then no_answer f else answer f
