-- ===== src/Preflight/Answers.antt =====
-- What the preflight check reports of each package.
use yoinkc.Base.{
  String, ◌≡◌, refl, ap, ◌∙◌, Bool, not, ◌&&◌, List, [], ◌∷◌, map, keep_if, contains,
  contains-keep_if, arith, string_eq,
}
use yoinkc.Base.Sort.{sorted, str_leb}
use yoinkc.Base.Sort.Laws.{contains-sort_by}
use yoinkc.Schema.{UnverifiablePackage}
use yoinkc.Preflight.Evaluate.{
  Findings, is_nonempty, answer, found_names, not_found, is_unverifiable, unverifiable_names,
  unavailable_names, unreachable_ids, repo_of,
}

-- The query returned the name.
abbrev pub is_found : Findings → String → Bool
is_found f n = contains (found_names f.repoquery.stdout) n

-- The repo of the package could not be installed.
abbrev pub has_lost_provider : Findings → String → Bool
has_lost_provider f n = is_nonempty f.bootstrap_failed_providers && is_unverifiable f n

-- The repo of the package did not answer.
abbrev pub is_cut_off : Findings → String → Bool
is_cut_off f n = contains (unreachable_ids f) (repo_of f.source_repos n)

contains-sorted : (xs : List String) (n : String) → contains (sorted xs) n ≡ contains xs n
unfolding sorted
contains-sorted = contains-sort_by str_leb

contains-not_found :
    (f : Findings) (n : String)
    → contains (not_found f) n ≡ (contains f.repo_packages n && not (is_found f n))
unfolding not_found
contains-not_found f n =
    contains-sorted _ n
    ∙ contains-keep_if (λ m. not (contains (found_names f.repoquery.stdout) m)) f.repo_packages n

contains-unverifiable_names :
    (f : Findings) (n : String)
    → contains (unverifiable_names f) n
      ≡ (contains f.repo_packages n && not (is_found f n) && has_lost_provider f n)
unfolding unverifiable_names contains
contains-unverifiable_names f n =
    ground (arith, contains-keep_if (is_unverifiable f) (not_found f) n, contains-not_found f n)

contains-unavailable_names :
    (f : Findings) (n : String)
    → contains (unavailable_names f) n ≡ (
        contains f.repo_packages n
        && not (is_found f n)
        && not (has_lost_provider f n)
        && not (is_cut_off f n))
unfolding unavailable_names
contains-unavailable_names f n = ground (
  arith,
  contains-keep_if (λ pkg. not (contains (unreachable_ids f) (repo_of f.source_repos pkg)))
      (not_found f) n,
  contains-keep_if (λ pkg. not (contains (unreachable_ids f) (repo_of f.source_repos pkg)))
      (keep_if (λ pkg. not (is_unverifiable f pkg)) (not_found f)) n,
  contains-keep_if (λ pkg. not (is_unverifiable f pkg)) (not_found f) n,
  contains-not_found f n,
)

abbrev unverified : String → String → UnverifiablePackage
unverified reason pkg = record { name = pkg; reason = reason }

map-name :
    (reason : String) (names : List String)
    → map (λ u. u.name) (map (unverified reason) names) ≡ names
map-name reason [] = refl
map-name reason (n ∷ names) = cc (map-name reason names)

-- Of the packages that are asked for, those that the query returned are available, the others whose repo comes from a
-- provider that could not be installed are unverifiable, and the rest is unavailable, unless its repo did not answer.
pub answer-classifies :
    (f : Findings) (n : String)
    → (contains (answer f).available n ≡ (contains f.repo_packages n && is_found f n))
      × (contains (map (λ u. u.name) (answer f).unverifiable) n
          ≡ (contains f.repo_packages n && not (is_found f n) && has_lost_provider f n))
      × (contains (answer f).unavailable n ≡ (
          contains f.repo_packages n
          && not (is_found f n)
          && not (has_lost_provider f n)
          && not (is_cut_off f n)))
unfolding answer
answer-classifies f n = (
  contains-sorted _ n ∙ contains-keep_if (is_found f) f.repo_packages n,
  ap (λ names. contains names n) (map-name _ (unverifiable_names f))
      ∙ contains-unverifiable_names f n,
  contains-unavailable_names f n,
)
