-- ===== src/Installed.antt =====
-- `_detect_duplicates` of inspectors/rpm.py: the packages that are installed in several versions.
pub mod Duplicates
use yoinkc.Base.{ℕ, ◌+◌, String, ◌<>◌, List, [], ◌∷◌, keep_if, ltb, string_eq}
use yoinkc.Base.Dict.{Dict, keys, upsert}
use yoinkc.Base.Sort.{sorted}
use yoinkc.Schema.{PackageEntry}

-- f"{pkg.name}.{pkg.arch}"
abbrev pub name_arch : PackageEntry → String
name_arch pkg = pkg.name <> ("." <> pkg.arch)

-- counts[key] = counts.get(key, 0) + 1
unfoldable pub count_versions : List PackageEntry → Dict String ℕ → Dict String ℕ
unfolding upsert
count_versions [] counts = counts
count_versions (pkg ∷ installed) counts =
    count_versions installed (upsert (name_arch pkg) 1 (λ n. n + 1) counts)

-- `_detect_duplicates`
unfoldable pub detect_duplicates : List PackageEntry → List String
unfolding count_versions keep_if keys sorted
detect_duplicates installed = sorted (keys (keep_if (λ e. ltb 1 e.1) (count_versions installed [])))
