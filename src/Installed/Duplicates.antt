-- ===== src/Installed/Duplicates.antt =====
-- Which names `_detect_duplicates` returns.
use yoinkc.Base.{
  ℕ, ◌+◌, String, ◌≡◌, refl, ◌∙◌, List, [], ◌∷◌, arith, length, keep_if, ltb, contains, Distinct,
  ◌==◌, if◌then◌else◌, ap, Option, none, some, string_eq,
}
use yoinkc.Base.Dict.{
  Dict, keys, lookup, upsert, get_or, upsert-Distinct, passes, contains-keys-keep_if,
}
use yoinkc.Base.Sort.{str_leb}
use yoinkc.Base.Sort.Laws.{Ascends, sorted-Ascends, contains-sort_by}
use yoinkc.Schema.{PackageEntry}
use yoinkc.Installed.{name_arch, count_versions, detect_duplicates}

-- How many installed packages have a name and an architecture.
unfoldable pub versions_of : String → List PackageEntry → ℕ
unfolding keep_if
versions_of key installed = length (keep_if (λ pkg. key == name_arch pkg) installed)

count_versions-Distinct :
    (installed : List PackageEntry) (counts : Dict String ℕ)
    → Distinct (keys counts)
    → Distinct (keys (count_versions installed counts))
unfolding count_versions
count_versions-Distinct [] counts h = h
count_versions-Distinct (pkg ∷ installed) counts h =
    count_versions-Distinct installed _ (upsert-Distinct (name_arch pkg) 1 (λ n. n + 1) counts h)

get_or-upsert :
    (j k : String) (d : Dict String ℕ)
    → get_or (lookup j (upsert k 1 (λ n. n + 1) d)) 0
      ≡ get_or (lookup j d) 0 + (if j == k then 1 else 0)
unfolding lookup upsert
get_or-upsert j k [] = ground arith
get_or-upsert j k ((i, n) ∷ d) = ground (arith, get_or-upsert j k d)

lookup-count_versions :
    (key : String) (installed : List PackageEntry) (counts : Dict String ℕ)
    → get_or (lookup key (count_versions installed counts)) 0
      ≡ get_or (lookup key counts) 0 + versions_of key installed
unfolding count_versions versions_of keep_if
lookup-count_versions key [] counts = omega arith
lookup-count_versions key (pkg ∷ installed) counts =
    let key' = name_arch pkg in
    ground (
      arith,
      lookup-count_versions key installed (upsert key' 1 (λ n. n + 1) counts),
      get_or-upsert key key' counts,
    )

counted :
    (key : String) (installed : List PackageEntry)
    → get_or (lookup key (count_versions installed [])) 0 ≡ versions_of key installed
unfolding lookup
counted key installed = omega (arith, lookup-count_versions key installed [])

passes-above_one : (o : Option ℕ) → passes (λ n. ltb 1 n) o ≡ ltb 1 (get_or o 0)
passes-above_one none = refl
passes-above_one (some n) = refl

-- The result ascends, and a name with an architecture is in it exactly if two or more installed packages
-- have it.
pub detect_duplicates-twice :
    (installed : List PackageEntry)
    → Ascends str_leb (detect_duplicates installed)
      × ((key : String)
          → contains (detect_duplicates installed) key ≡ ltb 1 (versions_of key installed))
unfolding detect_duplicates
detect_duplicates-twice installed =
    let counts = count_versions installed [] in
    let found = keys (keep_if (λ e. ltb 1 e.1) counts) in
    (
      sorted-Ascends found,
      λ key.
          contains-sort_by str_leb found key
          ∙ contains-keys-keep_if (λ n. ltb 1 n) counts key
              (count_versions-Distinct installed [] tt)
          ∙ passes-above_one (lookup key counts)
          ∙ ap (ltb 1) (counted key installed),
    )
