-- ===== src/Preflight/Direct.antt =====
-- `_classify_direct_installs` of rpm_preflight.py.
use yoinkc.Base.{
  String, Bool, false, Option, none, some, List, [], ◌∷◌, contains, string_eq, if◌then◌else◌,
}
use yoinkc.Base.Dict.{Dict, lookup, upsert}
use yoinkc.Base.Sort.{unique, sorted}
use yoinkc.Base.Slices.{strip, lower}
use yoinkc.Schema.{InspectionSnapshot, PackageEntry}
use yoinkc.InstallSet.{resolve_install_set}

-- `_DIRECT_INSTALL_REPOS`
abbrev pub direct_install_repos : List String
direct_install_repos = "" ∷ "(none)" ∷ "commandline" ∷ "(commandline)" ∷ "installed" ∷ []

-- The repo of the first package of each name.
unfoldable pub source_repos_of : List PackageEntry → Dict String String → Dict String String
unfolding upsert
source_repos_of [] source_repos = source_repos
source_repos_of (p ∷ packages) source_repos =
    source_repos_of packages (upsert p.name p.source_repo (λ repo. repo) source_repos)

-- `source_repos[name].strip().lower() in _DIRECT_INSTALL_REPOS`, for a name that is there
abbrev pub is_direct_repo : Option String → Bool
is_direct_repo none = false
is_direct_repo (some repo) = contains direct_install_repos (lower (strip repo))

unfoldable pub is_direct : Dict String String → String → Bool
unfolding lookup contains lower strip
is_direct source_repos name = is_direct_repo (lookup name source_repos)

-- The loop over the sorted names: the packages of a repo, and those that were installed directly.
unfoldable pub split_names : Dict String String → List String → List String × List String
unfolding is_direct
split_names source_repos [] = ([], [])
split_names source_repos (name ∷ names) =
    let (repo_pkgs, direct) = split_names source_repos names in
    if is_direct source_repos name then (repo_pkgs, name ∷ direct) else (name ∷ repo_pkgs, direct)

unfoldable pub classify_packages : List PackageEntry → List String → List String × List String
unfolding split_names source_repos_of sorted unique
classify_packages [] install_set = ([], [])
classify_packages (p ∷ packages) install_set =
    split_names (source_repos_of (p ∷ packages) []) (sorted (unique install_set))

-- snapshot.rpm.packages_added, where there is an rpm section
abbrev pub added_packages : InspectionSnapshot → List PackageEntry
added_packages snapshot = elim snapshot.rpm [ none ↦ [] | some rpm ↦ rpm.packages_added ]

-- `_classify_direct_installs`
unfoldable pub classify_direct_installs : InspectionSnapshot → List String × List String
unfolding classify_packages split_names source_repos_of sorted unique resolve_install_set
classify_direct_installs snapshot =
    classify_packages (added_packages snapshot) (resolve_install_set snapshot)
