-- ===== src/Schema/Software.antt =====
-- schema.py: software without a package, the kernel and boot section.
use yoinkc.Base.{String, Bool, Option, List}
use yoinkc.Schema.Documents.{Fields}
use yoinkc.Schema.Config.{ConfigFileEntry}
use yoinkc.Schema.Fleet.{FleetPrevalence}

pub record PipPackage : Type 0 where
  pub name : String
  pub version : String

pub record NonRpmItem : Type 0 where
  pub path : String
  pub name : String
  pub method : String
  pub confidence : String
  pub include : Bool
  pub lang : String
  pub static : Bool
  pub version : String
  pub shared_libs : List String
  pub system_site_packages : Bool
  pub packages : List PipPackage
  pub has_c_extensions : Bool
  pub git_remote : String
  pub git_commit : String
  pub git_branch : String
  pub files : Option Fields
  pub content : String
  pub fleet : Option FleetPrevalence

pub record NonRpmSoftwareSection : Type 0 where
  pub items : List NonRpmItem
  pub env_files : List ConfigFileEntry

pub record ConfigSnippet : Type 0 where
  pub path : String
  pub content : String

pub record SysctlOverride : Type 0 where
  pub key : String
  pub runtime : String
  pub default : String
  pub source : String
  pub include : Bool

pub record KernelModule : Type 0 where
  pub name : String
  pub size : String
  pub used_by : String
  pub include : Bool

pub record AlternativeEntry : Type 0 where
  pub name : String
  pub path : String
  pub status : String

pub record KernelBootSection : Type 0 where
  pub cmdline : String
  pub grub_defaults : String
  pub sysctl_overrides : List SysctlOverride
  pub modules_load_d : List ConfigSnippet
  pub modprobe_d : List ConfigSnippet
  pub dracut_conf : List ConfigSnippet
  pub loaded_modules : List KernelModule
  pub non_default_modules : List KernelModule
  pub tuned_active : String
  pub tuned_custom_profiles : List ConfigSnippet
  pub locale : Option String
  pub timezone : Option String
  pub alternatives : List AlternativeEntry
