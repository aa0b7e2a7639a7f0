-- ===== src/Schema/Snapshot.antt =====
-- schema.py: the root of a snapshot.
use yoinkc.Base.{ℕ, Option, List}
use yoinkc.Schema.Documents.{Fields}
use yoinkc.Schema.Config.{ConfigSection, ServiceSection}
use yoinkc.Schema.Workloads.{ContainerSection, ScheduledTaskSection}
use yoinkc.Schema.Software.{KernelBootSection, NonRpmSoftwareSection}
use yoinkc.Schema.Network.{NetworkSection, StorageSection}
use yoinkc.Schema.Fleet.{OsRelease, SystemType}
use yoinkc.Schema.Rpm.{PreflightResult, RpmSection}
use yoinkc.Schema.Security.{Redaction, SelinuxSection, UserGroupSection}

pub record InspectionSnapshot : Type 0 where
  pub schema_version : ℕ
  pub meta : Fields
  pub os_release : Option OsRelease
  pub system_type : SystemType
  pub rpm : Option RpmSection
  pub config : Option ConfigSection
  pub services : Option ServiceSection
  pub network : Option NetworkSection
  pub storage : Option StorageSection
  pub scheduled_tasks : Option ScheduledTaskSection
  pub containers : Option ContainerSection
  pub non_rpm_software : Option NonRpmSoftwareSection
  pub kernel_boot : Option KernelBootSection
  pub selinux : Option SelinuxSection
  pub users_groups : Option UserGroupSection
  pub preflight : PreflightResult
  pub warnings : List Fields
  pub redactions : List Redaction
