-- ===== src/Tests/Merge.antt =====
-- The merge engine on two hosts, of which one lists httpd and both list vim.
use yoinkc.Base.{
  ◌≤◌, String, ◌≡◌, refl, Bool, true, false, some, List, [], ◌∷◌, map, length, All, any, contains,
  Distinct, ok, is_ok, leb, string_eq, pair_eq,
}
use yoinkc.Base.Dict.{upsert}
use yoinkc.Fleet.Prevalence.{prevalence_include}
use yoinkc.Schema.{PackageEntry, FleetPrevalence}
use yoinkc.Fleet.Item.Instances.{package_entry}
use yoinkc.Fleet.Merge.{merge_identity_items, merge_content_items}
use yoinkc.Fleet.Merge.Seen.{hosts_of}
use yoinkc.Fleet.Merge.Counts.{IsPrevalent, IsStable}
use yoinkc.Fleet.Merge.Identity
use yoinkc.Fleet.Merge.Content
use yoinkc.Tests.Data.{rpm_package}

abbrev hosts : List (List PackageEntry)
hosts =
    (rpm_package "vim" "9.0" ∷ rpm_package "httpd" "2.4" ∷ []) ∷ (rpm_package "vim" "9.1" ∷ []) ∷ []

abbrev names : List String
names = "web1" ∷ "web2" ∷ []

abbrev prevalent : PackageEntry → List String → Bool → PackageEntry
prevalent p on include = record p {
  fleet = some (record { count = length on; total = 2; hosts = on });
  include = include;
}

-- At 100 percent only vim is included.
abbrev merged : List PackageEntry
merged =
    prevalent (rpm_package "vim" "9.0") ("web1" ∷ "web2" ∷ []) true
    ∷ prevalent (rpm_package "httpd" "2.4") ("web1" ∷ []) false
    ∷ []

runs : merge_identity_items hosts (λ p. p.name) 2 100 names ≡ ok merged
unfolding merge_identity_items upsert string_eq prevalence_include
runs = refl

name-IsStable : IsStable package_entry (λ p. p.name)
name-IsStable = record { at = λ b f p. refl }

merge_identity_items-IsPrevalent_example :
    All (λ p. IsPrevalent package_entry (hosts_of (λ q. q.name) p.name hosts names) 2 100 p) merged
merge_identity_items-IsPrevalent_example =
    Identity.merge_identity_items-IsPrevalent (λ p. p.name) hosts 2 100 names merged name-IsStable
      runs

merge_identity_items-keys_example :
    Distinct (map (λ p. p.name) merged)
    × ((k : String)
        → contains (map (λ p. p.name) merged) k
          ≡ any (λ items. contains (map (λ p. p.name) items) k) hosts)
merge_identity_items-keys_example =
    Identity.merge_identity_items-keys (λ p. p.name) hosts 2 100 names merged name-IsStable runs

hosts-Distinct : All (λ items. Distinct (map (λ p. p.name) items)) hosts
unfolding contains string_eq
hosts-Distinct = (((refl, (refl, tt))), ((refl, tt), tt))

merge_identity_items-count-le_example :
    All (λ p. (f : FleetPrevalence) × (p.fleet ≡ some f) × (f.count ≤ 2)) merged
merge_identity_items-count-le_example =
    Identity.merge_identity_items-count-le (λ p. p.name) hosts 2 100 names merged name-IsStable
      hosts-Distinct runs

is_ok-merge_identity_items_example :
    is_ok (merge_identity_items hosts (λ p. p.name) 2 100 names) ≡ leb (length hosts) (length names)
is_ok-merge_identity_items_example =
    Identity.is_ok-merge_identity_items (λ p. p.name) hosts 2 100 names

-- One name in two architectures on the first of two hosts.
merge_identity_items-counts_twice_example :
    (item : PackageEntry) × (merge_identity_items
        ((rpm_package "glibc" "2.34" ∷ record (rpm_package "glibc" "2.34") { arch = "i686" } ∷ [])
          ∷ []
          ∷ [])
        (λ p. p.name)
        2
        100
        ("web1" ∷ "web2" ∷ [])
      ≡ ok (item ∷ []))
    × (item.include ≡ true)
merge_identity_items-counts_twice_example =
    Identity.merge_identity_items-counts_twice (λ p. p.name) (rpm_package "glibc" "2.34")
      (record (rpm_package "glibc" "2.34") { arch = "i686" }) "web1" "web2" refl

abbrev variant_of : PackageEntry → String × String
variant_of p = (p.name, p.version)

-- Two versions of vim are two variants.
abbrev merged_variants : List PackageEntry
merged_variants =
    prevalent (rpm_package "vim" "9.0") ("web1" ∷ []) true
    ∷ prevalent (rpm_package "httpd" "2.4") ("web1" ∷ []) true
    ∷ prevalent (rpm_package "vim" "9.1") ("web2" ∷ []) true
    ∷ []

runs_variants :
    merge_content_items hosts (λ p. p.name) (λ p. p.version) 2 50 names ≡ ok merged_variants
unfolding merge_content_items upsert string_eq prevalence_include pair_eq
runs_variants = refl

variant-IsStable : IsStable package_entry variant_of
variant-IsStable = record { at = λ b f p. refl }

merge_content_items-IsPrevalent_example :
    All
      (λ p. IsPrevalent package_entry (hosts_of variant_of (p.name, p.version) hosts names) 2 50 p)
      merged_variants
merge_content_items-IsPrevalent_example =
    Content.merge_content_items-IsPrevalent (λ p. p.name) (λ p. p.version) hosts 2 50 names
      merged_variants variant-IsStable runs_variants

merge_content_items-keys_example :
    Distinct (map variant_of merged_variants)
    × ((k : String × String)
        → contains (map variant_of merged_variants) k
          ≡ any (λ items. contains (map variant_of items) k) hosts)
merge_content_items-keys_example =
    Content.merge_content_items-keys (λ p. p.name) (λ p. p.version) hosts 2 50 names merged_variants
      variant-IsStable runs_variants
