-- ===== src/Tests/Preflight.antt =====
-- The preflight check of two packages on a machine that finds one of them.
use yoinkc.Base.{
  String, ◌≡◌, refl, Bool, true, false, not, ◌&&◌, some, none, [], ◌∷◌, List, map, contains,
  string_eq, Result, ok, raise, os_error,
}
use yoinkc.Base.Sort.{str_leb}
use yoinkc.Base.Sort.Laws.{Ascends}
use yoinkc.Schema.{InspectionSnapshot, PreflightResult}
use yoinkc.InstallSet.{resolve_install_set}
use yoinkc.Tests.Data.{rpm_package, no_rpm, snapshot_of}
use yoinkc.Preflight.Direct.{added_packages, classify_direct_installs}
use yoinkc.Preflight.Splits
use yoinkc.Preflight.Splits.{has_packages, lacks_repo}
use yoinkc.Executor.{failed}
use yoinkc.Preflight.Container.{run_checks_in_container}
use yoinkc.Preflight.Evaluate.{Findings, answer}
use yoinkc.Preflight.Answers
use yoinkc.Preflight.Answers.{is_found, has_lost_provider, is_cut_off}
use yoinkc.Preflight.Repos.{detect_unreachable_repos}
use yoinkc.Preflight.Run.{run_package_preflight}
use yoinkc.Preflight.Steps.{◌>>=◌, finally}
use yoinkc.Preflight.Log.{Event, Oracle, logging, is_left_running, is_left_staged, has_failed_write}
use yoinkc.Preflight.Cleanup

abbrev snapshot : InspectionSnapshot
snapshot = snapshot_of (
    some (record no_rpm {
      packages_added =
          rpm_package "httpd" "2.4"
          ∷ record (rpm_package "tool" "1") { source_repo = "(none)" }
          ∷ rpm_package "zsh" "5"
          ∷ [];
      base_image = some "quay.io/base";
    }))

split : classify_direct_installs snapshot ≡ ("httpd" ∷ "zsh" ∷ [], "tool" ∷ [])
unfolding classify_direct_installs
split = refl

-- Every command succeeds, and the query finds httpd.
abbrev oracle : Oracle
oracle = record {
  reply = λ cmd log. ok (record { returncode = 0; stdout = "httpd\n"; stderr = "" });
  directory = λ log. ok "/tmp/staged";
  write = λ dir file log. ok tt;
  is_dir = λ dir log. ok true;
  uuid = λ log. "0123abcd";
  time = λ log. "now";
  sections = λ text. none;
}

abbrev available_of : Result PreflightResult → List String
available_of (ok result) = result.available
available_of (raise e) = []

abbrev unavailable_of : Result PreflightResult → List String
unavailable_of (ok result) = result.unavailable
unavailable_of (raise e) = []

found : available_of (run_package_preflight (logging oracle) snapshot []).0 ≡ "httpd" ∷ []
unfolding run_package_preflight failed logging run_checks_in_container ◌>>=◌ finally
found = refl

missing : unavailable_of (run_package_preflight (logging oracle) snapshot []).0 ≡ "zsh" ∷ []
unfolding run_package_preflight failed logging run_checks_in_container ◌>>=◌ finally
missing = refl

abbrev findings : Findings
findings = record {
  source_repos = ("httpd", "baseos") ∷ ("zsh", "epel") ∷ [];
  bootstrap_failed_providers = "epel-release" ∷ [];
  failed_repo_ids = "epel" ∷ [];
  repoquery = record { returncode = 0; stdout = "httpd\n"; stderr = "" };
  repo_unreachable = [];
  repos_queried = "baseos" ∷ [];
  repo_packages = "httpd" ∷ "zsh" ∷ [];
  direct_installs = [];
  base_image = "quay.io/base";
  timestamp = "now";
}

unverifiable_zsh : map (λ u. u.name) (answer findings).unverifiable ≡ "zsh" ∷ []
unfolding answer string_eq
unverifiable_zsh = refl

unreachable_epel :
    map
      (λ r. r.repo_id)
      (detect_unreachable_repos
        "x\nFailed to download metadata for repo 'epel'\nFailed to download metadata for repo 'epel'\n")
    ≡ "epel" ∷ []
unfolding detect_unreachable_repos string_eq
unreachable_epel = refl

answer-classifies_example :
    (contains (answer findings).available "zsh"
      ≡ (contains findings.repo_packages "zsh" && is_found findings "zsh"))
    × (contains (map (λ u. u.name) (answer findings).unverifiable) "zsh" ≡ (
        contains findings.repo_packages "zsh"
        && not (is_found findings "zsh")
        && has_lost_provider findings "zsh"))
    × (contains (answer findings).unavailable "zsh" ≡ (
        contains findings.repo_packages "zsh"
        && not (is_found findings "zsh")
        && not (has_lost_provider findings "zsh")
        && not (is_cut_off findings "zsh")))
answer-classifies_example = Answers.answer-classifies findings "zsh"

abbrev asked : Bool
asked = has_packages (added_packages snapshot) && contains (resolve_install_set snapshot) "tool"

classify_direct_installs-splits_example :
    (contains (classify_direct_installs snapshot).0 "tool"
      ≡ (asked && not (lacks_repo "tool" snapshot)))
    × (contains (classify_direct_installs snapshot).1 "tool"
        ≡ (asked && lacks_repo "tool" snapshot))
    × Ascends str_leb (classify_direct_installs snapshot).0
    × Ascends str_leb (classify_direct_installs snapshot).1
classify_direct_installs-splits_example = Splits.classify_direct_installs-splits snapshot "tool"

-- A snapshot with a file to stage. Its path is that of the directory, so that a machine raises on the write.
abbrev with_repo : InspectionSnapshot
with_repo = snapshot_of (
    some (record no_rpm {
      packages_added = rpm_package "httpd" "2.4" ∷ [];
      base_image = some "quay.io/base";
      repo_files =
          record { path = "."; content = ""; is_default_repo = false; include = true; fleet = none }
          ∷ [];
    }))

abbrev refusing : Oracle
refusing = record oracle { write = λ dir file log. raise os_error }

abbrev after_refusal : List Event
after_refusal = (run_package_preflight (logging refusing) with_repo []).1

leaked : is_left_staged "/tmp/staged" after_refusal ≡ true
unfolding run_package_preflight failed logging run_checks_in_container ◌>>=◌ finally is_left_staged
leaked = refl

removed :
    is_left_staged "/tmp/staged" (run_package_preflight (logging oracle) with_repo []).1 ≡ false
unfolding run_package_preflight failed logging run_checks_in_container ◌>>=◌ finally is_left_staged
removed = refl

run_package_preflight-IsSettled_example :
    (is_left_running "inspectah-preflight-0123abcd"
        (run_package_preflight (logging oracle) with_repo []).1
      ≡ false)
    × (is_left_staged "/tmp/staged" (run_package_preflight (logging oracle) with_repo []).1
        ≡ has_failed_write "/tmp/staged" (run_package_preflight (logging oracle) with_repo []).1)
unfolding is_left_running is_left_staged has_failed_write
run_package_preflight-IsSettled_example =
    Cleanup.run_package_preflight-IsSettled oracle with_repo "inspectah-preflight-0123abcd"
      "/tmp/staged" [] refl refl refl

-- A host without added packages, with an active tuned profile: tuned is to be installed, and is not checked.
abbrev only_tuned : InspectionSnapshot
only_tuned = record (snapshot_of none) {
  kernel_boot = some (record {
    cmdline = "";
    grub_defaults = "";
    sysctl_overrides = [];
    modules_load_d = [];
    modprobe_d = [];
    dracut_conf = [];
    loaded_modules = [];
    non_default_modules = [];
    tuned_active = "virtual-guest";
    tuned_custom_profiles = [];
    locale = none;
    timezone = none;
    alternatives = [];
  });
}

installed_tuned : resolve_install_set only_tuned ≡ "tuned" ∷ []
unfolding resolve_install_set
installed_tuned = refl

unchecked_tuned : classify_direct_installs only_tuned ≡ ([], [])
unfolding classify_direct_installs
unchecked_tuned = refl
