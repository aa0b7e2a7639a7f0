-- ===== src/Fleet/Validate.antt =====
-- `validate_snapshots` of fleet/loader.py. A message on stderr and `sys.exit(1)` are an outcome here;
-- the warnings on duplicate names of hosts are not kept.
pub mod Compatible
use yoinkc.Base.{
  String, Bool, Option, none, some, List, [], ◌∷◌, map, length, ltb, Eq, string_eq, nat_eq, Result,
  ok, ◌>>=◌, if◌then◌else◌,
}
use yoinkc.Base.Dict.{get_or}
use yoinkc.Base.Text.{is_empty}
use yoinkc.Base.Sort.{unique}
use yoinkc.Schema.{InspectionSnapshot, OsRelease, str, HashKey, get, hash_key}

pub data Verdict : Type 0 where
  compatible too_few version_mismatch no_os_release os_id_mismatch os_version_mismatch
        base_image_mismatch :
      Verdict

-- `for h in hostnames: if h in seen: … seen.add(h)`: a name that cannot be hashed is a `TypeError`
unfoldable pub hash_hostnames : List InspectionSnapshot → Result (List HashKey)
unfolding hash_key get
hash_hostnames [] = ok []
hash_hostnames (s ∷ snapshots) = do
  h ← hash_key (get_or (get "hostname" s.meta) (str ""))
  hs ← hash_hostnames snapshots
  ok (h ∷ hs)

unfoldable pub os_releases : List InspectionSnapshot → Option (List OsRelease)
os_releases [] = some []
os_releases (s ∷ snapshots) = elim s.os_release [
  | none ↦ none
  | some release ↦ elim (os_releases snapshots) [ none ↦ none | some rest ↦ some (release ∷ rest) ]
]

-- rpm.base_image, where it is set and not empty
unfoldable pub base_image_of : InspectionSnapshot → Option String
base_image_of s = elim s.rpm [
  | none ↦ none
  | some rpm ↦ elim rpm.base_image [
    | none ↦ none
    | some image ↦ if is_empty image then none else some image
  ]
]

unfoldable pub base_images : List InspectionSnapshot → List String
unfolding base_image_of
base_images [] = []
base_images (s ∷ snapshots) = elim (base_image_of s) [
  | none ↦ base_images snapshots
  | some image ↦ image ∷ base_images snapshots
]

-- len({…}) > 1
unfoldable pub differ : {A : Type 0} ⦃e : Eq A⦄ → List A → Bool
unfolding unique
differ xs = ltb 1 (length (unique xs))

check_releases : List InspectionSnapshot → Option (List OsRelease) → Verdict
check_releases snapshots none = no_os_release
check_releases snapshots (some releases) =
    if differ (map (λ o. o.id) releases)
    then os_id_mismatch
    else if differ (map (λ o. o.version_id) releases)
    then os_version_mismatch
    else if differ (base_images snapshots)
    then base_image_mismatch
    else compatible

-- `validate_snapshots`
unfoldable pub validate_snapshots : List InspectionSnapshot → Result Verdict
unfolding check_releases hash_hostnames os_releases base_images differ
validate_snapshots snapshots =
    if ltb (length snapshots) 2
    then ok too_few
    else if differ (map (λ s. s.schema_version) snapshots)
    then ok version_mismatch
    else do
      hostnames ← hash_hostnames snapshots
      ok (check_releases snapshots (os_releases snapshots))
