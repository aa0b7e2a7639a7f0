-- ===== src/Schema/Security.antt =====
-- schema.py: SELinux, users and groups, redactions.
use yoinkc.Base.{ℕ, String, Bool, Option, List}
use yoinkc.Schema.Documents.{Fields}
use yoinkc.Schema.Fleet.{FleetPrevalence}

pub record SelinuxPortLabel : Type 0 where
  pub protocol : String
  pub port : String
  pub type : String
  pub include : Bool
  pub fleet : Option FleetPrevalence

pub record SelinuxSection : Type 0 where
  pub mode : String
  pub custom_modules : List String
  pub boolean_overrides : List Fields
  pub fcontext_rules : List String
  pub audit_rules : List String
  pub fips_mode : Bool
  pub pam_configs : List String
  pub port_labels : List SelinuxPortLabel

pub record UserGroupSection : Type 0 where
  pub users : List Fields
  pub groups : List Fields
  pub sudoers_rules : List String
  pub ssh_authorized_keys_refs : List Fields
  pub passwd_entries : List String
  pub shadow_entries : List String
  pub group_entries : List String
  pub gshadow_entries : List String
  pub subuid_entries : List String
  pub subgid_entries : List String

pub record RedactionFinding : Type 0 where
  pub path : String
  pub source : String
  pub kind : String
  pub pattern : String
  pub remediation : String
  pub line : Option ℕ
  pub replacement : Option String
  pub detection_method : String
  pub confidence : Option String

-- An entry of `redactions`: a finding, or a dict of an older snapshot that stays as it was read.
pub data Redaction : Type 0 where
  finding : RedactionFinding → Redaction
  plain : Fields → Redaction
