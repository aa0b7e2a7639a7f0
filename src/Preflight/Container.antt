-- ===== src/Preflight/Container.antt =====
-- `_run_checks_in_container` of rpm_preflight.py. The commands run in a world that is a parameter.
use yoinkc.Base.{
  String, Option, none, some, List, [], ◌∷◌, ◌++◌, map, string_eq, nat_eq, if◌then◌else◌,
}
use yoinkc.Base.Dict.{Dict, lookup, get_or}
use yoinkc.Base.Sort.{unique}
use yoinkc.Schema.{InspectionSnapshot, PreflightResult}
use yoinkc.Executor.{RunResult, failed}
use yoinkc.Preflight.Direct.{source_repos_of}
use yoinkc.Preflight.Repos.{detect_unreachable_repos, provider_repo_ids}
use yoinkc.Preflight.Steps.{Step, pure, ◌>>=◌}
use yoinkc.Preflight.Evaluate.{repos_of, with_affected, evaluate}

module _ {World : Type 0} (sections : String → Option (List String))
    (execute : List String → Step World RunResult) where
  -- Phase 1: the providers of repos are installed.
  unfoldable pub bootstrap : List String → List String → Step World (List String)
  bootstrap exec_base [] = pure []
  bootstrap exec_base (p ∷ providers) = do
    result ← execute (exec_base ++ ("dnf" ∷ "install" ∷ "-y" ∷ p ∷ providers))
    pure (if failed result then p ∷ providers else [])

  failed_ids : List String → Dict String (List String) → List String
  failed_ids [] provider_repos = []
  failed_ids (p ∷ providers) provider_repos =
      get_or (lookup p provider_repos) [] ++ failed_ids providers provider_repos

  unfoldable pub providers_of : InspectionSnapshot → List String
  providers_of snapshot = elim snapshot.rpm [ none ↦ [] | some rpm ↦ rpm.repo_providing_packages ]

  packages_repos : InspectionSnapshot → Dict String String
  packages_repos snapshot = elim snapshot.rpm [
    | none ↦ []
    | some rpm ↦ source_repos_of rpm.packages_added []
  ]

  -- `_run_checks_in_container`
  unfoldable pub run_checks_in_container :
      InspectionSnapshot
      → List String
      → String
      → List String
      → List String
      → String
      → Step World PreflightResult
  unfolding bootstrap failed_ids providers_of packages_repos evaluate source_repos_of lookup unique
      detect_unreachable_repos with_affected repos_of provider_repo_ids
  run_checks_in_container snapshot exec_base base_image repo_packages direct_installs timestamp = do
    let query = "dnf" ∷ "repoquery" ∷ "--available" ∷ "--queryformat" ∷ "%{name}" ∷ repo_packages
    failed_providers ← bootstrap exec_base (providers_of snapshot)
    repoquery ← execute (exec_base ++ query)
    repolist ← execute (exec_base ++ ("dnf" ∷ "repolist" ∷ "--quiet" ∷ []))
    pure (
        evaluate (record {
          source_repos = packages_repos snapshot;
          bootstrap_failed_providers = unique failed_providers;
          failed_repo_ids =
              failed_ids (unique failed_providers) (provider_repo_ids sections snapshot);
          repoquery = repoquery;
          repo_unreachable =
              map (with_affected (packages_repos snapshot) repo_packages)
                (detect_unreachable_repos repoquery.stderr);
          repos_queried = repos_of repolist;
          repo_packages = repo_packages;
          direct_installs = direct_installs;
          base_image = base_image;
          timestamp = timestamp;
        }))
