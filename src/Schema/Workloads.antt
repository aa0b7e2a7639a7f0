-- ===== src/Schema/Workloads.antt =====
-- schema.py: scheduled tasks and containers.
use yoinkc.Base.{String, Bool, Option, List}
use yoinkc.Schema.Documents.{Fields}
use yoinkc.Schema.Fleet.{FleetPrevalence}

pub record CronJob : Type 0 where
  pub path : String
  pub source : String
  pub rpm_owned : Bool
  pub include : Bool
  pub fleet : Option FleetPrevalence

pub record SystemdTimer : Type 0 where
  pub name : String
  pub on_calendar : String
  pub exec_start : String
  pub description : String
  pub source : String
  pub path : String
  pub timer_content : String
  pub service_content : String

pub record AtJob : Type 0 where
  pub file : String
  pub command : String
  pub user : String
  pub working_dir : String

pub record GeneratedTimerUnit : Type 0 where
  pub name : String
  pub timer_content : String
  pub service_content : String
  pub cron_expr : String
  pub source_path : String
  pub command : String
  pub include : Bool
  pub fleet : Option FleetPrevalence

pub record ScheduledTaskSection : Type 0 where
  pub cron_jobs : List CronJob
  pub systemd_timers : List SystemdTimer
  pub at_jobs : List AtJob
  pub generated_timer_units : List GeneratedTimerUnit

pub record ContainerMount : Type 0 where
  pub type : String
  pub source : String
  pub destination : String
  pub mode : String
  pub rw : Bool

pub record QuadletUnit : Type 0 where
  pub path : String
  pub name : String
  pub content : String
  pub image : String
  pub include : Bool
  pub tie : Bool
  pub tie_winner : Bool
  pub fleet : Option FleetPrevalence

pub record ComposeService : Type 0 where
  pub service : String
  pub image : String

pub record ComposeFile : Type 0 where
  pub path : String
  pub images : List ComposeService
  pub include : Bool
  pub tie : Bool
  pub tie_winner : Bool
  pub fleet : Option FleetPrevalence

pub record RunningContainer : Type 0 where
  pub id : String
  pub name : String
  pub image : String
  pub image_id : String
  pub status : String
  pub mounts : List ContainerMount
  pub networks : Fields
  pub ports : Fields
  pub env : List String

pub record FlatpakApp : Type 0 where
  pub app_id : String
  pub origin : String
  pub branch : String
  pub include : Bool

pub record ContainerSection : Type 0 where
  pub quadlet_units : List QuadletUnit
  pub compose_files : List ComposeFile
  pub running_containers : List RunningContainer
  pub flatpak_apps : List FlatpakApp
