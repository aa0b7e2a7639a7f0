-- ===== src/Leaves/Queries.antt =====
-- The queries of `_classify_leaf_auto`: `_query_user_installed`, `_classify_deps_via_dnf` and `_classify_deps_via_rpm`.
-- The executor and `run_rpm_query` are parameters.
use yoinkc.Base.{
  ℕ, zero, suc, length, take, String, Bool, true, false, not, ◌&&◌, ◌||◌, Option, none, some, List,
  [], ◌∷◌, ◌++◌, map, keep_if, contains, ◌==◌, string_eq, if◌then◌else◌,
}
use yoinkc.Base.Dict.{Dict, upsert}
use yoinkc.Base.Sort.{sorted, unique}
use yoinkc.Base.Text.{is_empty, starts_with, split}
use yoinkc.Base.Slices.{strip, split_lines, split_words, holds_text}
use yoinkc.Schema.{PackageEntry}
use yoinkc.Executor.{RunResult, failed}
use yoinkc.Nevra.{split_version}
use yoinkc.Leaves.{classify}

abbrev pub query_format : List String
query_format = "--queryformat" ∷ "%{name}\n" ∷ []

-- The lines with a name, without the whitespace around them.
unfoldable pub stripped_lines : String → List String
unfolding keep_if strip split_lines
stripped_lines stdout = keep_if (λ name. not (is_empty name)) (map strip (split_lines stdout))

-- {name: set() for name in added_names}
unfoldable pub no_deps : List String → Dict String (List String)
no_deps added_names = map (λ name. (name, [])) added_names

-- The names on the lines that were added, but for the package itself.
unfoldable pub deps_in : List String → String → String → List String
unfolding keep_if contains stripped_lines string_eq
deps_in added_names pkg_name stdout =
    keep_if (λ dep. contains added_names dep && not (dep == pkg_name)) (stripped_lines stdout)

-- `depends_on[pkg_name].add(dep)`, for each of them
unfoldable pub join_deps :
    String → List String → Dict String (List String) → Dict String (List String)
unfolding upsert unique
join_deps pkg_name deps depends_on =
    upsert pkg_name (unique deps) (λ old. unique (old ++ deps)) depends_on

-- The capabilities on the lines of `rpm -qR`.
unfoldable pub caps_of : List String → List String
unfolding strip split_words starts_with
caps_of [] = []
caps_of (line ∷ lines) =
    let caps = caps_of lines in
    let cap = strip line in
    let named : List String = elim (split_words cap) [ [] ↦ caps | word ∷ words ↦ word ∷ caps ] in
    if is_empty cap || starts_with cap "rpmlib(" || starts_with cap "/" then caps else named

first_of : List String → String
first_of [] = ""
first_of (x ∷ xs) = x

-- Group 1 of `^(.+?)-\d`, or what stands before the first dash
unfoldable pub provider_of : String → String
unfolding split_version split first_of
provider_of String.[] = ""
provider_of (String.◌∷◌ c pline) = elim (split_version pline) [
  | none ↦ first_of (split 45 (String.◌∷◌ c pline))
  | some (name, rest) ↦ String.◌∷◌ c name
]

unfoldable pub providers_in : List String → String → String → List String
unfolding keep_if contains string_eq provider_of stripped_lines holds_text
providers_in added_names pkg_name stdout =
    keep_if (λ p. contains added_names p && not (p == pkg_name))
      (map provider_of
        (keep_if (λ line. not (holds_text "no package provides" line)) (stripped_lines stdout)))

drop : ℕ → List String → List String
drop zero xs = xs
drop (suc n) [] = []
drop (suc n) (x ∷ xs) = drop n xs

-- Batches of fifty, the last one of what is left. The length of the list is enough fuel.
unfoldable pub batches : ℕ → List String → List (List String)
unfolding take drop
batches zero xs = []
batches (suc fuel) [] = []
batches (suc fuel) (x ∷ xs) = take 50 (x ∷ xs) ∷ batches fuel (drop 49 xs)

module _ {World : Type 0} (execute : List String → World → RunResult × World)
    (rpm_query : List String → World → RunResult × World) (is_root : Bool)
    (host_root : String) where
  abbrev in_host : List String → List String
  in_host cmd =
      if is_root
      then cmd
      else ("nsenter" ∷ "-t" ∷ "1" ∷ "-m" ∷ "-u" ∷ "-i" ∷ "-n" ∷ "--" ∷ []) ++ cmd

  -- `_query_user_installed`
  unfoldable pub query_user_installed : World → Option (List String) × World
  unfolding stripped_lines unique
  query_user_installed w =
      let (result, w') =
        execute (in_host ("dnf" ∷ "repoquery" ∷ "--userinstalled" ∷ query_format)) w in
      (if failed result then none else some (unique (stripped_lines result.stdout)), w')

  abbrev requires_cmd : String → List String
  requires_cmd name =
      let root = if is_root then [] else "--installroot" ∷ host_root ∷ [] in
      ("dnf" ∷ "repoquery" ∷ [])
      ++ (root
          ++ ("--requires" ∷ "--resolve" ∷ "--recursive" ∷ "--installed" ∷ query_format
              ++ (name ∷ [])))

  dnf_rest :
      List String
      → List String
      → Dict String (List String)
      → World
      → Dict String (List String) × World
  dnf_rest added_names [] depends_on w = (depends_on, w)
  dnf_rest added_names (name ∷ names) depends_on w =
      let (result, w') = execute (requires_cmd name) w in
      dnf_rest added_names names
        (if failed result
          then depends_on
          else join_deps name (deps_in added_names name result.stdout) depends_on)
        w'

  dnf_from : List String → List String → World → Option (Dict String (List String)) × World
  unfolding dnf_rest no_deps join_deps deps_in
  dnf_from added_names [] w = (some [], w)
  dnf_from added_names (name ∷ names) w =
      let (result, w₁) = execute (requires_cmd name) w in
      let (depends_on, w₂) =
        dnf_rest added_names names
          (join_deps name (deps_in added_names name result.stdout) (no_deps added_names)) w₁ in
      if failed result then (none, w₁) else (some depends_on, w₂)

  -- `_classify_deps_via_dnf`
  unfoldable pub classify_deps_via_dnf :
      List String → World → Option (Dict String (List String)) × World
  unfolding dnf_from sorted
  classify_deps_via_dnf added_names w = dnf_from added_names (sorted added_names) w

  -- The query for the providers of one batch of capabilities.
  what_provides : List String → String → List String → World → List String × World
  unfolding providers_in
  what_provides added_names pkg_name caps w =
      let (result, w') = rpm_query ("-q" ∷ "--whatprovides" ∷ caps) w in
      (if failed result then [] else providers_in added_names pkg_name result.stdout, w')

  provide_all : List String → String → List (List String) → World → List String × World
  unfolding what_provides
  provide_all added_names pkg_name [] w = ([], w)
  provide_all added_names pkg_name (caps ∷ rest) w =
      let (providers, w₁) = what_provides added_names pkg_name caps w in
      let (others, w₂) = provide_all added_names pkg_name rest w₁ in (providers ++ others, w₂)

  -- What one package requires among the added ones.
  requires : List String → String → World → List String × World
  unfolding provide_all batches caps_of sorted unique split_lines
  requires added_names pkg_name w =
      let (result, w₁) = rpm_query ("-qR" ∷ pkg_name ∷ []) w in
      let caps = sorted (unique (caps_of (split_lines result.stdout))) in
      if failed result
      then ([], w₁)
      else provide_all added_names pkg_name (batches (length caps) caps) w₁

  rpm_rest :
      List String
      → List String
      → Dict String (List String)
      → World
      → Dict String (List String) × World
  unfolding requires join_deps
  rpm_rest added_names [] depends_on w = (depends_on, w)
  rpm_rest added_names (name ∷ names) depends_on w =
      let (deps, w₁) = requires added_names name w in
      rpm_rest added_names names (join_deps name deps depends_on) w₁

  -- `_classify_deps_via_rpm`
  unfoldable pub classify_deps_via_rpm : List String → World → Dict String (List String) × World
  unfolding rpm_rest no_deps sorted
  classify_deps_via_rpm added_names w =
      rpm_rest added_names (sorted added_names) (no_deps added_names) w

  -- `_classify_leaf_auto`
  unfoldable pub classify_leaf_auto :
      List PackageEntry → World → (List String × List String × Dict String (List String)) × World
  unfolding query_user_installed classify_deps_via_dnf classify_deps_via_rpm classify unique
  classify_leaf_auto packages_added w =
      let added_names = unique (map (λ p. p.name) packages_added) in
      let (user_installed, w₁) = query_user_installed w in
      let (via_dnf, w₂) = classify_deps_via_dnf added_names w₁ in
      elim via_dnf [
        | some depends_on ↦ (classify user_installed true added_names depends_on, w₂)
        | none ↦
            let (depends_on, w₃) = classify_deps_via_rpm added_names w₂ in
            (classify user_installed false added_names depends_on, w₃)
      ]
