-- ===== src/Schema/Rpm.antt =====
-- schema.py: the RPM inspector's section and the preflight result.
use yoinkc.Base.{ℕ, String, Bool, Option, List}
use yoinkc.Base.Dict.{Dict}
use yoinkc.Schema.Fleet.{FleetPrevalence}

pub data PackageState : Type 0 where
  added base_image_only modified : PackageState

pub data VersionChangeDirection : Type 0 where
  upgrade downgrade : VersionChangeDirection

pub record VersionChange : Type 0 where
  pub name : String
  pub arch : String
  pub host_version : String
  pub base_version : String
  pub host_epoch : String
  pub base_epoch : String
  pub direction : VersionChangeDirection

pub record PackageEntry : Type 0 where
  pub name : String
  pub epoch : String
  pub version : String
  pub release : String
  pub arch : String
  pub state : PackageState
  pub include : Bool
  pub source_repo : String
  pub fleet : Option FleetPrevalence

pub record EnabledModuleStream : Type 0 where
  pub module_name : String
  pub stream : String
  pub profiles : List String
  pub include : Bool
  pub baseline_match : Bool
  pub fleet : Option FleetPrevalence

pub record VersionLockEntry : Type 0 where
  pub raw_pattern : String
  pub name : String
  pub epoch : ℕ
  pub version : String
  pub release : String
  pub arch : String
  pub include : Bool
  pub fleet : Option FleetPrevalence

pub record RpmVaEntry : Type 0 where
  pub path : String
  pub flags : String
  pub package_name : Option String

pub record UnverifiablePackage : Type 0 where
  pub name : String
  pub reason : String

pub record RepoStatus : Type 0 where
  pub repo_id : String
  pub repo_name : String
  pub error : String
  pub affected_packages : List String

pub record PreflightResult : Type 0 where
  pub status : String
  pub status_reason : Option String
  pub available : List String
  pub unavailable : List String
  pub unverifiable : List UnverifiablePackage
  pub direct_install : List String
  pub repo_unreachable : List RepoStatus
  pub base_image : String
  pub repos_queried : List String
  pub timestamp : String

pub record OstreePackageOverride : Type 0 where
  pub name : String
  pub from_nevra : String
  pub to_nevra : String

pub record RepoFile : Type 0 where
  pub path : String
  pub content : String
  pub is_default_repo : Bool
  pub include : Bool
  pub fleet : Option FleetPrevalence

pub record RpmSection : Type 0 where
  pub packages_added : List PackageEntry
  pub base_image_only : List PackageEntry
  pub rpm_va : List RpmVaEntry
  pub repo_files : List RepoFile
  pub gpg_keys : List RepoFile
  pub dnf_history_removed : List String
  pub version_changes : List VersionChange
  pub leaf_packages : Option (List String)
  pub auto_packages : Option (List String)
  pub leaf_dep_tree : Option (Dict String (List String))
  pub module_streams : List EnabledModuleStream
  pub version_locks : List VersionLockEntry
  pub module_stream_conflicts : List String
  pub baseline_module_streams : Option (Dict String String)
  pub versionlock_command_output : Option String
  pub multiarch_packages : List String
  pub duplicate_packages : List String
  pub repo_providing_packages : List String
  pub ostree_overrides : List OstreePackageOverride
  pub ostree_removals : List String
  pub base_image : Option String
  pub baseline_package_names : Option (List String)
  pub no_baseline : Bool
