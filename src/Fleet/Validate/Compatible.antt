-- ===== src/Fleet/Validate/Compatible.antt =====
-- Which snapshots `validate_snapshots` lets pass.
use yoinkc.Base.{
  ◌≤◌, ◌≡◌, ◌↔◌, refl, false, some, List, [], ◌∷◌, map, arith, All, length, ltb, contains, Eq,
  nat_eq, string_eq, ok,
}
use yoinkc.Base.Sort.{unique, unique_after}
use yoinkc.Schema.{InspectionSnapshot, OsRelease, HashKey}
use yoinkc.Fleet.Validate.{
  compatible, hash_hostnames, os_releases, base_images, differ, check_releases, validate_snapshots,
}

module _ {A : Type 0} ⦃e : Eq A⦄ where
  -- One value, as often as it stands there.
  abbrev pub AllSame : List A → Type 0
  AllSame [] = Unit
  AllSame (x ∷ xs) = All (λ y. y ≡ x) xs

  none-after : (x : A) (xs : List A) → All (λ y. y ≡ x) xs → unique_after (x ∷ []) xs ≡ []
  unfolding unique_after contains
  none-after x [] h = refl
  none-after x (y ∷ xs) h = ground (arith, h.0, none-after x xs h.1)

  after-none :
      (x : A) (xs : List A)
      → ltb 1 (length (x ∷ unique_after (x ∷ []) xs)) ≡ false
      → All (λ y. y ≡ x) xs
  unfolding unique_after contains
  after-none x [] h = tt
  after-none x (y ∷ xs) h = ground (arith, after-none x xs)

  differ-AllSame : (xs : List A) → (differ xs ≡ false) ↔ AllSame xs
  unfolding differ unique unique_after contains
  differ-AllSame [] = (λ h. tt, λ h. refl)
  differ-AllSame (x ∷ xs) = (after-none x xs, λ h. ground (arith, none-after x xs h))

agreement :
    (snapshots : List InspectionSnapshot) (names : List HashKey) (releases : List OsRelease)
    → 2 ≤ length snapshots
    → hash_hostnames snapshots ≡ ok names
    → os_releases snapshots ≡ some releases
    → (validate_snapshots snapshots ≡ ok compatible) ↔ (
        (differ (map (λ s. s.schema_version) snapshots) ≡ false)
        × (differ (map (λ o. o.id) releases) ≡ false)
        × (differ (map (λ o. o.version_id) releases) ≡ false)
        × (differ (base_images snapshots) ≡ false))
unfolding validate_snapshots check_releases
agreement snapshots names releases n h o = rw (h, o) (ground arith)

-- Two or more snapshots of hosts whose names can be hashed and which all have a release are compatible exactly if they have one
-- schema version, one id and one version of the release, and at most one base image.
pub validate_snapshots-compatible :
    (snapshots : List InspectionSnapshot) (names : List HashKey) (releases : List OsRelease)
    → 2 ≤ length snapshots
    → hash_hostnames snapshots ≡ ok names
    → os_releases snapshots ≡ some releases
    → (validate_snapshots snapshots ≡ ok compatible) ↔ (
        AllSame (map (λ s. s.schema_version) snapshots)
        × AllSame (map (λ o. o.id) releases)
        × AllSame (map (λ o. o.version_id) releases)
        × AllSame (base_images snapshots))
validate_snapshots-compatible snapshots names releases n h o =
    let (versions_to, versions_from) = differ-AllSame (map (λ s. s.schema_version) snapshots) in
    let (ids_to, ids_from) = differ-AllSame (map (λ o. o.id) releases) in
    let (oses_to, oses_from) = differ-AllSame (map (λ o. o.version_id) releases) in
    let (images_to, images_from) = differ-AllSame (base_images snapshots) in
    let (to, from) = agreement snapshots names releases n h o in
    (
      λ c. let (v, i, r, b) = to c in (versions_to v, ids_to i, oses_to r, images_to b),
      λ (v, i, r, b). from (versions_from v, ids_from i, oses_from r, images_from b),
    )
