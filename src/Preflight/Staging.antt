-- ===== src/Preflight/Staging.antt =====
-- What the checks do to the staged directory, and how the writing of its files ends.
use yoinkc.Base.{
  String, ◌<>◌, ◌≡◌, refl, Bool, false, not, Option, List, [], ◌∷◌, Result, ok, raise, is_ok, arith,
  ◌==◌, string_eq,
}
use yoinkc.Schema.{InspectionSnapshot}
use yoinkc.Executor.{failed}
use yoinkc.Preflight.Steps.{Step, continue, ◌>>=◌}
use yoinkc.Preflight.Unchanged.{
  Unchanged, finally-Unchanged, >>=-Unchanged, if_Unchanged, mount_options-Unchanged,
  run_checks_in_container-Unchanged,
}
use yoinkc.Preflight.Log.{
  Event, ran, wrote, Oracle, did_fail, logging, is_left_staged, has_failed_write,
}
use yoinkc.Preflight.Run.{host_cmd, write_files, run_container, remove_container, run_checks}

-- What only runs commands changes nothing that no command changes.
module _ (f : List Event → Bool)
    (quiet : (cmd : List String) (failed : Bool) (log : List Event)
      → f (ran cmd failed ∷ log) ≡ f log)
    (o : Oracle) (snapshot : InspectionSnapshot) where
  execute_quiet : (cmd : List String) → Unchanged f ((logging o).execute cmd)
  unfolding logging
  execute_quiet cmd log = quiet cmd (did_fail (o.reply cmd log)) log

  remove_container_quiet : (name : String) → Unchanged f (remove_container (logging o) name)
  unfolding remove_container
  remove_container_quiet name = >>=-Unchanged f _ _ (execute_quiet _) (λ removed log. refl)

  run_container_quiet :
      (base_image timestamp name : String) (repo_packages direct_installs options : List String)
      → Unchanged f (
          run_container
            (logging o)
            snapshot
            base_image
            repo_packages
            direct_installs
            options
            timestamp
            name)
  unfolding run_container
  run_container_quiet base_image timestamp name repo_packages direct_installs options =
      >>=-Unchanged f _ _ (execute_quiet _) (λ start.
        if_Unchanged f (failed start) _ _ (λ log. refl)
          (finally-Unchanged f _ _
            (run_checks_in_container-Unchanged f o snapshot
              (host_cmd ("podman" ∷ "exec" ∷ name ∷ [])) (λ cmd. quiet _) base_image timestamp
              repo_packages direct_installs)
            (remove_container_quiet name)))

  pub run_checks_quiet :
      (base_image timestamp : String) (repo_packages direct_installs : List String)
      (staging_dir : Option String)
      → Unchanged f (
          run_checks
            (logging o)
            snapshot
            base_image
            repo_packages
            direct_installs
            timestamp
            staging_dir)
  unfolding run_checks
  run_checks_quiet base_image timestamp repo_packages direct_installs staging_dir =
      >>=-Unchanged f _ _ (λ log. unfold logging in refl)
        (λ hex. >>=-Unchanged f _ _ (mount_options-Unchanged f o staging_dir) (λ options.
          run_container_quiet base_image timestamp ("inspectah-preflight-" <> hex) repo_packages
            direct_installs options))

module _ (o : Oracle) (d dir : String) where
  -- The directory stands there, and a write below it raised if the writing ended so.
  abbrev pub AfterWrites : Result (Unit {0}) × List Event → Type 0
  AfterWrites (ok done, log) =
      (is_left_staged d log ≡ (d == dir)) × (has_failed_write d log ≡ false)
  AfterWrites (raise e, log) =
      (is_left_staged d log ≡ (d == dir)) × (has_failed_write d log ≡ (d == dir))

  after_write :
      (answer : Result (Unit {0})) (log : List Event) (k : Unit {0} → Step (List Event) (Unit {0}))
      → is_left_staged d log ≡ (d == dir)
      → has_failed_write d log ≡ false
      → ((later : List Event)
          → is_left_staged d later ≡ (d == dir)
          → has_failed_write d later ≡ false
          → AfterWrites (k tt later))
      → AfterWrites (continue k (answer, wrote dir (not (is_ok answer)) ∷ log))
  unfolding is_left_staged has_failed_write
  after_write (ok done) log k g h hk = hk (wrote dir false ∷ log) g (ground (arith, h))
  after_write (raise e) log k g h hk = (g, ground (arith, h))

  pub write_files-AfterWrites :
      (files : List (String × String)) (log : List Event)
      → is_left_staged d log ≡ (d == dir)
      → has_failed_write d log ≡ false
      → AfterWrites (write_files (logging o) dir files log)
  unfolding write_files logging ◌>>=◌
  write_files-AfterWrites [] log g h = (g, h)
  write_files-AfterWrites (file ∷ files) log g h =
      after_write (o.write dir file log) log _ g h (write_files-AfterWrites files)
