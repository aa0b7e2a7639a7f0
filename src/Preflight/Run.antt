-- ===== src/Preflight/Run.antt =====
-- `_stage_config_tree`, `_run_checks` and `run_package_preflight` of rpm_preflight.py. The machine is a parameter.
use yoinkc.Base.{
  String, ◌<>◌, Bool, not, ◌&&◌, ◌||◌, Option, none, some, List, [], ◌∷◌, ◌++◌, map, keep_if, any,
  ok, if◌then◌else◌,
}
use yoinkc.Base.Text.{is_empty, starts_with}
use yoinkc.Base.Slices.{strip, text_before}
use yoinkc.Schema.{InspectionSnapshot, RpmSection, RepoFile, ConfigFileEntry, PreflightResult}
use yoinkc.Preflight.Direct.{classify_direct_installs}
use yoinkc.Executor.{RunResult, failed}
use yoinkc.Preflight.Steps.{Step, pure, no_raise, ◌>>=◌, ◌>>◌, finally}
use yoinkc.Preflight.Container.{run_checks_in_container}

-- What the check uses of the machine: the executor, `mkdtemp`, the writing of a file below a directory (`mkdir` of its
-- parents and `write_text`), `is_dir`, `rmtree` with its errors ignored, the first eight digits of a UUID, the clock;
-- and configparser. A step may raise.
pub record Machine (World : Type 0) : Type 0 where
  pub execute : List String → Step World RunResult
  pub make_directory : Step World String
  pub write_file : String → String × String → Step World (Unit {0})
  pub is_dir : String → Step World Bool
  pub remove_tree : String → World → World
  pub short_uuid : World → String × World
  pub now : World → String × World
  pub sections : String → Option (List String)

-- `_host_cmd`
abbrev pub host_cmd : List String → List String
host_cmd cmd = ("nsenter" ∷ "-t" ∷ "1" ∷ "-m" ∷ "-u" ∷ "-i" ∷ "-n" ∷ "--" ∷ []) ++ cmd

abbrev repo_file_list : (RpmSection → List RepoFile) → InspectionSnapshot → List RepoFile
repo_file_list field snapshot = elim snapshot.rpm [ none ↦ [] | some rpm ↦ field rpm ]

abbrev config_files : InspectionSnapshot → List ConfigFileEntry
config_files snapshot = elim snapshot.config [ none ↦ [] | some config ↦ config.files ]

unfoldable pub is_dnf_conf : ConfigFileEntry → Bool
unfolding starts_with
is_dnf_conf f = f.include && starts_with f.path "etc/dnf/"

-- The paths and the contents of the files that `_stage_config_tree` writes, or none if it makes no directory.
unfoldable pub files_to_stage : InspectionSnapshot → Option (List (String × String))
unfolding keep_if any is_dnf_conf
files_to_stage snapshot =
    let repos = repo_file_list (λ rpm. rpm.repo_files) snapshot in
    let keys = repo_file_list (λ rpm. rpm.gpg_keys) snapshot in
    let written = λ (files : List RepoFile).
      map {B = String × String} (λ r. (r.path, r.content))
        (keep_if (λ r. r.include && not (is_empty r.path)) files) in
    let confs = keep_if is_dnf_conf (config_files snapshot) in
    if any (λ r. r.include) repos
      || any (λ k. k.include) keys
      || any is_dnf_conf (config_files snapshot)
    then some (written repos ++ (written keys ++ map (λ f. (f.path, f.content)) confs))
    else none

abbrev pub failure : String → Option String → List String → String → PreflightResult
failure base_image reason direct_installs timestamp = record {
  status = "failed";
  status_reason = reason;
  available = [];
  unavailable = [];
  unverifiable = [];
  direct_install = direct_installs;
  repo_unreachable = [];
  base_image = base_image;
  repos_queried = [];
  timestamp = timestamp;
}

-- {stderr.strip()[:200]}
abbrev pub excerpt : RunResult → String
excerpt e = text_before 200 (strip e.stderr)

module _ {World : Type 0} (machine : Machine World) where
  unfoldable pub write_files : String → List (String × String) → Step World (Unit {0})
  write_files staging [] = pure tt
  write_files staging (file ∷ files) = do machine.write_file staging file; write_files staging files

  -- A directory with the files. If a write raises, the directory stays.
  unfoldable pub stage : Option (List (String × String)) → Step World (Option String)
  unfolding write_files
  stage none = pure none
  stage (some files) = do
    staging ← machine.make_directory
    write_files staging files
    pure (some staging)

  -- `_stage_config_tree`
  unfoldable pub stage_config_tree : InspectionSnapshot → Step World (Option String)
  unfolding stage files_to_stage
  stage_config_tree snapshot = stage (files_to_stage snapshot)

  -- The options that mount a staged directory, if it is there.
  unfoldable pub mount : String → String → String → Step World (List String)
  mount staging_dir below target = do
    let dir = staging_dir <> ("/" <> below)
    present ← machine.is_dir dir
    pure (if present then "-v" ∷ (dir <> (":" <> (target <> ":Z"))) ∷ [] else [])

  unfoldable pub mount_options : Option String → Step World (List String)
  unfolding mount
  mount_options none = pure []
  mount_options (some staging_dir) = do
    repos ← mount staging_dir "etc/yum.repos.d" "/etc/yum.repos.d/"
    keys ← mount staging_dir "etc/pki/rpm-gpg" "/etc/pki/rpm-gpg/"
    confs ← mount staging_dir "etc/dnf" "/etc/dnf/"
    pure (repos ++ (keys ++ confs))

  unfoldable pub remove_container : String → Step World (Unit {0})
  remove_container name = do
    removed ← machine.execute (host_cmd ("podman" ∷ "rm" ∷ "-f" ∷ name ∷ []))
    pure tt

  -- The container of this name is started and used, and removed whatever the checks do.
  unfoldable pub run_container :
      InspectionSnapshot
      → String
      → List String
      → List String
      → List String
      → String
      → String
      → Step World PreflightResult
  unfolding remove_container strip text_before
  run_container snapshot base_image repo_packages direct_installs options timestamp name = do
    start ← machine.execute (
        host_cmd (
          "podman"
          ∷ "run"
          ∷ "-d"
          ∷ "--name"
          ∷ name
          ∷ (options ++ (base_image ∷ "sleep" ∷ "infinity" ∷ []))))
    let not_started =
        failure base_image (some ("Could not start preflight container: " <> excerpt start))
          direct_installs timestamp
    let checks =
        run_checks_in_container machine.sections machine.execute snapshot
          (host_cmd ("podman" ∷ "exec" ∷ name ∷ [])) base_image repo_packages direct_installs
          timestamp
    if failed start then pure not_started else finally checks (remove_container name)

  -- `_run_checks`
  unfoldable pub run_checks :
      InspectionSnapshot
      → String
      → List String
      → List String
      → String
      → Option String
      → Step World PreflightResult
  unfolding mount_options run_container
  run_checks snapshot base_image repo_packages direct_installs timestamp staging_dir = do
    hex ← no_raise machine.short_uuid
    options ← mount_options staging_dir
    run_container snapshot base_image repo_packages direct_installs options timestamp
        ("inspectah-preflight-" <> hex)

  unfoldable pub remove_staged : Option String → Step World (Unit {0})
  remove_staged none w = (ok tt, w)
  remove_staged (some staging_dir) w = (ok tt, machine.remove_tree staging_dir w)

  -- The image is there: the files are staged before the `try`, and removed whatever the checks do.
  unfoldable pub run_staged :
      InspectionSnapshot → String → List String → List String → String → Step World PreflightResult
  unfolding run_checks stage_config_tree remove_staged
  run_staged snapshot base_image repo_packages direct_installs timestamp = do
    staging_dir ← stage_config_tree snapshot
    finally (run_checks snapshot base_image repo_packages direct_installs timestamp staging_dir)
        (remove_staged staging_dir)

  unfoldable pub image_of : InspectionSnapshot → String
  image_of snapshot = elim snapshot.rpm [
    | none ↦ ""
    | some rpm ↦ elim rpm.base_image [ none ↦ "" | some image ↦ image ]
  ]

  unfoldable pub check_packages :
      InspectionSnapshot → String → List String × List String → String → Step World PreflightResult
  unfolding run_staged strip text_before
  check_packages snapshot base_image ([], direct_installs) timestamp =
      pure (record (failure base_image none direct_installs timestamp) { status = "completed" })
  check_packages snapshot base_image (p ∷ repo_packages, direct_installs) timestamp = do
    pull ← machine.execute (host_cmd ("podman" ∷ "pull" ∷ "-q" ∷ base_image ∷ []))
    let reason = "Base image " <> (base_image <> (" could not be pulled: " <> excerpt pull))
    let not_pulled = failure base_image (some reason) direct_installs timestamp
    let checks = run_staged snapshot base_image (p ∷ repo_packages) direct_installs timestamp
    if failed pull then pure not_pulled else checks

  -- `run_package_preflight`
  unfoldable pub run_package_preflight : InspectionSnapshot → Step World PreflightResult
  unfolding image_of check_packages classify_direct_installs
  run_package_preflight snapshot = do
    timestamp ← no_raise machine.now
    let base_image = image_of snapshot
    let no_image =
        failure "" (some "No base image configured — cannot run preflight check") [] timestamp
    let checks = check_packages snapshot base_image (classify_direct_installs snapshot) timestamp
    if is_empty base_image then pure no_image else checks
