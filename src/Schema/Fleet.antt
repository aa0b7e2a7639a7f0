-- ===== src/Schema/Fleet.antt =====
-- schema.py: the source system, the release of its OS, and fleet metadata.
use yoinkc.Base.{ℕ, String, List}

pub data SystemType : Type 0 where
  package_mode rpm_ostree bootc : SystemType

pub record OsRelease : Type 0 where
  pub name : String
  pub version_id : String
  pub version : String
  pub id : String
  pub id_like : String
  pub pretty_name : String
  pub variant_id : String

pub record FleetPrevalence : Type 0 where
  pub count : ℕ
  pub total : ℕ
  pub hosts : List String

pub record FleetMeta : Type 0 where
  pub source_hosts : List String
  pub total_hosts : ℕ
  pub min_prevalence : ℕ
