-- ===== src/Schema/Network.antt =====
-- schema.py: network and storage.
use yoinkc.Base.{String, Bool, Option, List}
use yoinkc.Schema.Fleet.{FleetPrevalence}

pub record NmConnection : Type 0 where
  pub path : String
  pub name : String
  pub method : String
  pub type : String

pub record FirewallZone : Type 0 where
  pub path : String
  pub name : String
  pub content : String
  pub services : List String
  pub ports : List String
  pub rich_rules : List String
  pub include : Bool
  pub fleet : Option FleetPrevalence

pub record FirewallDirectRule : Type 0 where
  pub ipv : String
  pub table : String
  pub chain : String
  pub priority : String
  pub args : String
  pub include : Bool

pub record StaticRouteFile : Type 0 where
  pub path : String
  pub name : String

pub record ProxyEntry : Type 0 where
  pub source : String
  pub line : String

pub record NetworkSection : Type 0 where
  pub connections : List NmConnection
  pub firewall_zones : List FirewallZone
  pub firewall_direct_rules : List FirewallDirectRule
  pub static_routes : List StaticRouteFile
  pub ip_routes : List String
  pub ip_rules : List String
  pub resolv_provenance : String
  pub hosts_additions : List String
  pub proxy : List ProxyEntry

pub record FstabEntry : Type 0 where
  pub device : String
  pub mount_point : String
  pub fstype : String
  pub options : String

pub record CredentialRef : Type 0 where
  pub mount_point : String
  pub credential_path : String
  pub source : String

pub record MountPoint : Type 0 where
  pub target : String
  pub source : String
  pub fstype : String
  pub options : String

pub record LvmVolume : Type 0 where
  pub lv_name : String
  pub vg_name : String
  pub lv_size : String

pub record VarDirectory : Type 0 where
  pub path : String
  pub size_estimate : String
  pub recommendation : String

pub record StorageSection : Type 0 where
  pub fstab_entries : List FstabEntry
  pub mount_points : List MountPoint
  pub lvm_info : List LvmVolume
  pub var_directories : List VarDirectory
  pub credential_refs : List CredentialRef
