-- ===== src/Tests/Compatible.antt =====
-- Two snapshots with one release pass the validation.
use yoinkc.Base.{
  ◌≡◌, refl, ◌↔◌, String, some, none, List, [], ◌∷◌, map, arith, ok, string_eq, nat_eq,
}
use yoinkc.Schema.{InspectionSnapshot, OsRelease, HashKey}
use yoinkc.Fleet.Validate.{compatible, validate_snapshots, hash_hostnames, os_releases, base_images}
use yoinkc.Fleet.Validate.Compatible
use yoinkc.Fleet.Validate.Compatible.{AllSame}
use yoinkc.Tests.Data.{snapshot_of}

abbrev release : OsRelease
release = record {
  name = "Red Hat Enterprise Linux";
  version_id = "9.4";
  version = "9.4";
  id = "rhel";
  id_like = "fedora";
  pretty_name = "";
  variant_id = "";
}

abbrev two : List InspectionSnapshot
two =
    record (snapshot_of none) { os_release = some release }
    ∷ record (snapshot_of none) { os_release = some release }
    ∷ []

they_pass : validate_snapshots two ≡ ok compatible
unfolding validate_snapshots nat_eq string_eq
they_pass = refl

validate_snapshots-compatible_example : (validate_snapshots two ≡ ok compatible) ↔ (
    AllSame (map (λ s. s.schema_version) two)
    × AllSame {A = String} ("rhel" ∷ "rhel" ∷ [])
    × AllSame {A = String} ("9.4" ∷ "9.4" ∷ [])
    × AllSame (base_images two))
unfolding hash_hostnames os_releases string_eq
validate_snapshots-compatible_example =
    Compatible.validate_snapshots-compatible two
      (HashKey.str_key "web1.example" ∷ HashKey.str_key "web1.example" ∷ [])
      (release ∷ release ∷ []) (omega arith) refl refl
