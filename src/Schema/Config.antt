-- ===== src/Schema/Config.antt =====
-- schema.py: config files, services and drop-ins.
use yoinkc.Base.{String, Bool, Option, List}
use yoinkc.Schema.Fleet.{FleetPrevalence}

pub data ConfigFileKind : Type 0 where
  rpm_owned_modified unowned orphaned : ConfigFileKind

pub data ConfigCategory : Type 0 where
  tmpfiles environment audit library_path journal logrotate automount sysctl crypto_policy identity
        limits other :
      ConfigCategory

pub record ConfigFileEntry : Type 0 where
  pub path : String
  pub kind : ConfigFileKind
  pub category : ConfigCategory
  pub content : String
  pub rpm_va_flags : Option String
  pub package_name : Option String
  pub diff_against_rpm : Option String
  pub include : Bool
  pub tie : Bool
  pub tie_winner : Bool
  pub fleet : Option FleetPrevalence

pub record ConfigSection : Type 0 where
  pub files : List ConfigFileEntry

pub record ServiceStateChange : Type 0 where
  pub unit : String
  pub current_state : String
  pub default_state : String
  pub action : String
  pub include : Bool
  pub owning_package : Option String
  pub fleet : Option FleetPrevalence

pub record SystemdDropIn : Type 0 where
  pub unit : String
  pub path : String
  pub content : String
  pub include : Bool
  pub tie : Bool
  pub tie_winner : Bool
  pub fleet : Option FleetPrevalence

pub record ServiceSection : Type 0 where
  pub state_changes : List ServiceStateChange
  pub enabled_units : List String
  pub disabled_units : List String
  pub drop_ins : List SystemdDropIn
