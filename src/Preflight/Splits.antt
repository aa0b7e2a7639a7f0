-- ===== src/Preflight/Splits.antt =====
-- Which packages `_classify_direct_installs` leaves to the query, and which it takes for direct installs.
use yoinkc.Base.{
  String, ◌≡◌, refl, ap, Bool, true, false, not, ◌&&◌, Option, none, some, List, [], ◌∷◌, All,
  contains, arith, ◌==◌, string_eq, if◌then◌else◌,
}
use yoinkc.Base.Dict.{Dict, lookup, upsert, lookup-upsert}
use yoinkc.Base.Sort.{sorted, unique, str_leb}
use yoinkc.Base.Sort.Laws.{Ascends, contains-sort_by, contains-unique, sorted-Ascends}
use yoinkc.Schema.{InspectionSnapshot, PackageEntry}
use yoinkc.InstallSet.{resolve_install_set}
use yoinkc.Preflight.Direct.{
  source_repos_of, is_direct_repo, is_direct, split_names, added_packages, classify_packages,
  classify_direct_installs,
}

-- The repo of the first package of a name.
unfoldable pub first_repo : String → List PackageEntry → Option String
first_repo n [] = none
first_repo n (p ∷ packages) = if n == p.name then some p.source_repo else first_repo n packages

abbrev pub has_packages : List PackageEntry → Bool
has_packages [] = false
has_packages (p ∷ packages) = true

abbrev or_else : Option String → Option String → Option String
or_else none other = other
or_else (some repo) other = some repo

lookup-source_repos_of :
    (n : String) (packages : List PackageEntry) (d : Dict String String)
    → lookup n (source_repos_of packages d) ≡ or_else (lookup n d) (first_repo n packages)
unfolding source_repos_of first_repo
lookup-source_repos_of n [] d = ground arith
lookup-source_repos_of n (p ∷ packages) d = ground (
  arith,
  lookup-source_repos_of n packages (upsert p.name p.source_repo (λ repo. repo) d),
  lookup-upsert n p.name p.source_repo (λ repo. repo) d,
)

contains-sorted : (xs : List String) (n : String) → contains (sorted xs) n ≡ contains xs n
unfolding sorted
contains-sorted = contains-sort_by str_leb

is_direct-first_repo :
    (n : String) (packages : List PackageEntry)
    → is_direct (source_repos_of packages []) n ≡ is_direct_repo (first_repo n packages)
unfolding is_direct lookup
is_direct-first_repo n packages = ap is_direct_repo (lookup-source_repos_of n packages [])

contains-split_names :
    (d : Dict String String) (names : List String) (n : String)
    → (contains (split_names d names).0 n ≡ (contains names n && not (is_direct d n)))
      × (contains (split_names d names).1 n ≡ (contains names n && is_direct d n))
unfolding split_names contains
contains-split_names d [] n = (refl, refl)
contains-split_names d (m ∷ names) n =
    ground (arith, contains-split_names d names n, ap (is_direct d))

All-split_names :
    (P : String → Type 0) (d : Dict String String) (names : List String)
    → All P names
    → All P (split_names d names).0 × All P (split_names d names).1
unfolding split_names
All-split_names P d [] h = (tt, tt)
All-split_names P d (m ∷ names) h = ground (arith, All-split_names P d names h.1)

split_names-Ascends :
    (d : Dict String String) (names : List String)
    → Ascends str_leb names
    → Ascends str_leb (split_names d names).0 × Ascends str_leb (split_names d names).1
unfolding split_names
split_names-Ascends d [] h = (tt, tt)
split_names-Ascends d (m ∷ names) h =
    ground (
      arith,
      split_names-Ascends d names h.1,
      All-split_names (λ n. str_leb m n ≡ true) d names h.0,
    )

-- A name is direct if the first package of it has no repo.
abbrev pub lacks_repo : String → InspectionSnapshot → Bool
lacks_repo n snapshot = is_direct_repo (first_repo n (added_packages snapshot))

classify_packages-splits :
    (packages : List PackageEntry) (install_set : List String) (n : String)
    → (contains (classify_packages packages install_set).0 n ≡ (
        has_packages packages
        && contains install_set n
        && not (is_direct_repo (first_repo n packages))))
      × (contains (classify_packages packages install_set).1 n ≡ (
          has_packages packages
          && contains install_set n
          && is_direct_repo (first_repo n packages)))
unfolding classify_packages contains
classify_packages-splits [] install_set n = (refl, refl)
classify_packages-splits (p ∷ packages) install_set n = ground (
  arith,
  contains-split_names (source_repos_of (p ∷ packages) []) (sorted (unique install_set)) n,
  contains-sorted (unique install_set) n,
  contains-unique install_set n,
  is_direct-first_repo n (p ∷ packages),
)

classify_packages-Ascends :
    (packages : List PackageEntry) (install_set : List String)
    → Ascends str_leb (classify_packages packages install_set).0
      × Ascends str_leb (classify_packages packages install_set).1
unfolding classify_packages
classify_packages-Ascends [] install_set = (tt, tt)
classify_packages-Ascends (p ∷ packages) install_set =
    split_names-Ascends (source_repos_of (p ∷ packages) []) (sorted (unique install_set))
      (sorted-Ascends (unique install_set))

-- Where the snapshot has added packages, a name of the install set is a direct install exactly if the first package of
-- the name has no repo, and otherwise is left to the query; without added packages both lists are empty, also where the
-- install set has a name. Both ascend.
pub classify_direct_installs-splits :
    (snapshot : InspectionSnapshot) (n : String)
    → (let (repo_packages, direct) = classify_direct_installs snapshot in
        let asked =
          has_packages (added_packages snapshot) && contains (resolve_install_set snapshot) n in
        (contains repo_packages n ≡ (asked && not (lacks_repo n snapshot)))
        × (contains direct n ≡ (asked && lacks_repo n snapshot))
        × Ascends str_leb repo_packages
        × Ascends str_leb direct)
unfolding classify_direct_installs
classify_direct_installs-splits snapshot n =
    let splits =
      classify_packages-splits (added_packages snapshot) (resolve_install_set snapshot) n in
    let ascends =
      classify_packages-Ascends (added_packages snapshot) (resolve_install_set snapshot) in
    (splits.0, splits.1, ascends.0, ascends.1)
