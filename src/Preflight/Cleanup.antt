-- ===== src/Preflight/Cleanup.antt =====
-- What the preflight check leaves behind, also where a step raises.
use yoinkc.Base.{
  String, ◌<>◌, ◌≡◌, refl, sym, ◌∙◌, Bool, true, false, Option, none, some, List, [], ◌∷◌, Result,
  ok, raise, arith, ◌==◌, string_eq, if◌then◌else◌,
}
use yoinkc.Base.Text.{is_empty}
use yoinkc.Schema.{InspectionSnapshot, PreflightResult}
use yoinkc.Preflight.Direct.{classify_direct_installs}
use yoinkc.Executor.{RunResult, failed}
use yoinkc.Preflight.Steps.{Step, pure, continue, ◌>>=◌, ◌>>◌, finally}
use yoinkc.Preflight.Unchanged.{Unchanged, continue-keeps, >>=-Unchanged, mount_options-Unchanged}
use yoinkc.Preflight.Running.{run_container-running}
use yoinkc.Preflight.Log.{
  Event, ran, staged, Oracle, did_fail, logging, begins_with, is_left_running, is_left_staged,
  has_failed_write, with_directory,
}
use yoinkc.Preflight.Run.{
  host_cmd, files_to_stage, stage, stage_config_tree, write_files, mount_options, remove_staged,
  run_checks, run_staged, image_of, check_packages, run_package_preflight,
}
use yoinkc.Preflight.Staging.{run_checks_quiet, AfterWrites, write_files-AfterWrites}

module _ (o : Oracle) (snapshot : InspectionSnapshot) (c d : String) where
  -- No container is left, and the directory is if a write below it raised.
  abbrev IsSettled : List Event → Type 0
  IsSettled log = (is_left_running c log ≡ false) × (is_left_staged d log ≡ has_failed_write d log)

  -- Nothing is left, and nothing was.
  abbrev IsUntouched : List Event → Type 0
  IsUntouched log =
      (is_left_running c log ≡ false)
      × (is_left_staged d log ≡ false)
      × (has_failed_write d log ≡ false)

  untouched-IsSettled : (log : List Event) → IsUntouched log → IsSettled log
  untouched-IsSettled log (r, s, w) = (r, s ∙ sym w)

  run_checks-running :
      (base_image timestamp : String) (repo_packages direct_installs : List String)
      (staging_dir : Option String) (log : List Event)
      → is_left_running c log ≡ false
      → is_left_running c
          (run_checks
            (logging o)
            snapshot
            base_image
            repo_packages
            direct_installs
            timestamp
            staging_dir
            log).1
        ≡ false
  unfolding run_checks ◌>>=◌ logging
  run_checks-running base_image timestamp repo_packages direct_installs staging_dir log h =
      continue-keeps (λ later. is_left_running c later ≡ false) _
        (mount_options (logging o) staging_dir log)
        (mount_options-Unchanged (is_left_running c) o staging_dir log ∙ h)
        (λ options later.
          run_container-running o snapshot c base_image timestamp
            ("inspectah-preflight-" <> o.uuid log) repo_packages direct_installs options later)

  write_files-running :
      (dir : String) (files : List (String × String))
      → Unchanged (is_left_running c) (write_files (logging o) dir files)
  unfolding write_files
  write_files-running dir [] = λ log. refl
  write_files-running dir (file ∷ files) =
      >>=-Unchanged (is_left_running c) _ _
        (λ log. unfold logging in unfold is_left_running in refl)
        (λ done. write_files-running dir files)

  module _ (base_image timestamp : String) (repo_packages direct_installs : List String) where
    abbrev checks : Option String → Step (List Event) PreflightResult
    checks = run_checks (logging o) snapshot base_image repo_packages direct_installs timestamp

    staged_quiet : (staging_dir : Option String) → Unchanged (is_left_staged d) (checks staging_dir)
    staged_quiet =
        run_checks_quiet (is_left_staged d) (λ cmd failed log. unfold is_left_staged in refl) o
          snapshot base_image timestamp repo_packages direct_installs

    write_quiet :
        (staging_dir : Option String) → Unchanged (has_failed_write d) (checks staging_dir)
    write_quiet =
        run_checks_quiet (has_failed_write d) (λ cmd failed log. unfold has_failed_write in refl) o
          snapshot base_image timestamp repo_packages direct_installs

    -- The checks with the directory, and its removal.
    with_staged-IsSettled :
        (dir : String) (log : List Event)
        → is_left_running c log ≡ false
        → is_left_staged d log ≡ (d == dir)
        → has_failed_write d log ≡ false
        → IsSettled (finally (checks (some dir)) (remove_staged (logging o) (some dir)) log).1
    unfolding finally remove_staged logging is_left_running is_left_staged has_failed_write
    with_staged-IsSettled dir log r s w = (
      run_checks-running base_image timestamp repo_packages direct_installs (some dir) log r,
      ground (arith, s, w, staged_quiet (some dir) log, write_quiet (some dir) log),
    )

    without_staged-IsSettled :
        (log : List Event)
        → IsUntouched log
        → IsSettled (finally (checks none) (remove_staged (logging o) none) log).1
    unfolding finally remove_staged
    without_staged-IsSettled log (r, s, w) = (
      run_checks-running base_image timestamp repo_packages direct_installs none log r,
      staged_quiet none log ∙ s ∙ sym (write_quiet none log ∙ w),
    )

    written-IsSettled :
        (dir : String) (p : Result (Unit {0}) × List Event)
        → is_left_running c p.1 ≡ false
        → AfterWrites o d dir p
        → IsSettled
            (continue
              (λ staging_dir. finally (checks staging_dir) (remove_staged (logging o) staging_dir))
              (continue (λ done. pure (some dir)) p)).1
    written-IsSettled dir (ok done, log) r (s, w) = with_staged-IsSettled dir log r s w
    written-IsSettled dir (raise e, log) r (s, w) = (r, s ∙ sym w)

    made-IsSettled :
        (files : List (String × String)) (answer : Result String) (log : List Event)
        → IsUntouched log
        → IsSettled
            (continue
              (λ staging_dir. finally (checks staging_dir) (remove_staged (logging o) staging_dir))
              (continue
                (λ dir. write_files (logging o) dir files >> pure (some dir))
                (answer, with_directory answer log))).1
    unfolding ◌>>=◌
    made-IsSettled files (raise e) log h = untouched-IsSettled log h
    made-IsSettled files (ok dir) log (r, s, w) =
        written-IsSettled dir (write_files (logging o) dir files (staged dir ∷ log))
          (write_files-running dir files (staged dir ∷ log) ∙ unfold is_left_running in r)
          (write_files-AfterWrites o d dir files (staged dir ∷ log)
            (unfold is_left_staged in ground (arith, s)) (unfold has_failed_write in w))

    staged-IsSettled :
        (files : Option (List (String × String))) (log : List Event)
        → IsUntouched log
        → IsSettled
            (continue
              (λ staging_dir. finally (checks staging_dir) (remove_staged (logging o) staging_dir))
              (stage (logging o) files log)).1
    unfolding stage ◌>>=◌ logging
    staged-IsSettled none log h = without_staged-IsSettled log h
    staged-IsSettled (some files) log h = made-IsSettled files (o.directory log) log h

    run_staged-IsSettled :
        (log : List Event)
        → IsUntouched log
        → IsSettled
            (run_staged
              (logging o)
              snapshot
              base_image
              repo_packages
              direct_installs
              timestamp
              log).1
    unfolding run_staged stage_config_tree ◌>>=◌
    run_staged-IsSettled log h = staged-IsSettled (files_to_stage snapshot) log h

  pull_command : String → List String
  pull_command base_image = host_cmd ("podman" ∷ "pull" ∷ "-q" ∷ base_image ∷ [])

  pulled-IsUntouched :
      (base_image : String) (failed : Bool) (log : List Event)
      → IsUntouched log
      → IsUntouched (ran (pull_command base_image) failed ∷ log)
  unfolding pull_command is_left_running begins_with is_left_staged has_failed_write
  pulled-IsUntouched base_image failed log h = h

  if_IsSettled :
      (b : Bool) (m n : Step (List Event) PreflightResult) (log : List Event)
      → IsUntouched log
      → IsSettled (m log).1
      → IsSettled (n log).1
      → IsSettled ((if b then m else n) log).1
  if_IsSettled true m n log h hm hn = hm
  if_IsSettled false m n log h hm hn = hn

  answer-IsSettled :
      (answer : Result RunResult) (log : List Event) (not_pulled : RunResult → PreflightResult)
      (m : Step (List Event) PreflightResult)
      → IsUntouched log
      → IsSettled (m log).1
      → IsSettled
          (continue (λ pull. if failed pull then pure (not_pulled pull) else m) (answer, log)).1
  answer-IsSettled (raise e) log not_pulled m h hm = untouched-IsSettled log h
  answer-IsSettled (ok pull) log not_pulled m h hm =
      if_IsSettled (failed pull) (pure (not_pulled pull)) m log h (untouched-IsSettled log h) hm

  check_packages-IsSettled :
      (base_image timestamp : String) (packages : List String × List String) (log : List Event)
      → IsUntouched log
      → IsSettled (check_packages (logging o) snapshot base_image packages timestamp log).1
  unfolding check_packages ◌>>=◌ logging pull_command
  check_packages-IsSettled base_image timestamp ([], direct_installs) log h =
      untouched-IsSettled log h
  check_packages-IsSettled base_image timestamp (p ∷ repo_packages, direct_installs) log h =
      let answer = o.reply (pull_command base_image) log in
      let pulled = ran (pull_command base_image) (did_fail answer) ∷ log in
      let untouched = pulled-IsUntouched base_image (did_fail answer) log h in
      answer-IsSettled answer pulled _ _ untouched (
        run_staged-IsSettled base_image timestamp (p ∷ repo_packages) direct_installs pulled
          untouched)

-- Whatever the machine answers or raises: if nothing of the container and of the directory was left before the check,
-- then after it the container is not left running, and the directory is left exactly if a write below it raised. A
-- container counts as running once a `podman run` that did not fail has named it, until a `podman rm -f` is sent.
pub run_package_preflight-IsSettled :
    (o : Oracle) (snapshot : InspectionSnapshot) (c d : String) (log : List Event)
    → is_left_running c log ≡ false
    → is_left_staged d log ≡ false
    → has_failed_write d log ≡ false
    → (is_left_running c (run_package_preflight (logging o) snapshot log).1 ≡ false)
      × (is_left_staged d (run_package_preflight (logging o) snapshot log).1
          ≡ has_failed_write d (run_package_preflight (logging o) snapshot log).1)
unfolding run_package_preflight logging ◌>>=◌
run_package_preflight-IsSettled o snapshot c d log r s w =
    let base_image = image_of (logging o) snapshot in
    if_IsSettled o snapshot c d (is_empty base_image) _ _ log (r, s, w)
      (untouched-IsSettled o snapshot c d log (r, s, w))
      (check_packages-IsSettled o snapshot c d base_image (o.time log)
        (classify_direct_installs snapshot) log (r, s, w))
