-- ===== src/Preflight/Running.antt =====
-- The container of the checks is removed, also where a step raises.
use yoinkc.Base.{
  String, ◌≡◌, refl, Bool, true, false, not, ◌&&◌, ◌||◌, Bool-cases, inl, inr, List, [], ◌∷◌, ◌++◌,
  Result, ok, raise, arith, ◌==◌, string_eq, if◌then◌else◌,
}
use yoinkc.Schema.{InspectionSnapshot, PreflightResult}
use yoinkc.Executor.{RunResult, failed}
use yoinkc.Preflight.Steps.{Step, pure, continue, ◌>>=◌, finally}
use yoinkc.Preflight.Unchanged.{Unchanged, continue-kept, run_checks_in_container-Unchanged}
use yoinkc.Preflight.Log.{Event, ran, Oracle, did_fail, logging, begins_with, is_left_running}
use yoinkc.Preflight.Run.{host_cmd, run_container, remove_container}

module _ (o : Oracle) (snapshot : InspectionSnapshot) (c : String) where
  abbrev exec_in : String → List String
  exec_in name = host_cmd ("podman" ∷ "exec" ∷ name ∷ [])

  run_command : String → List String → List String
  run_command name rest = host_cmd ("podman" ∷ "run" ∷ "-d" ∷ "--name" ∷ name ∷ rest)

  remove_command : String → List String
  remove_command name = host_cmd ("podman" ∷ "rm" ∷ "-f" ∷ name ∷ [])

  run_command-running :
      (name : String) (rest : List String) (failed : Bool) (log : List Event)
      → is_left_running c (ran (run_command name rest) failed ∷ log)
        ≡ ((name == c && not failed) || is_left_running c log)
  unfolding is_left_running run_command begins_with
  run_command-running name rest failed log = ground arith

  remove_command-running :
      (name : String) (failed : Bool) (log : List Event)
      → is_left_running c (ran (remove_command name) failed ∷ log)
        ≡ (if name == c then false else is_left_running c log)
  unfolding is_left_running remove_command begins_with
  remove_command-running name failed log = ground arith

  -- The removal after the checks, whatever they and the removal end with.
  finally-running :
      (name : String) (body : Step (List Event) PreflightResult) (log : List Event)
      → Unchanged (is_left_running c) body
      → is_left_running c log ≡ (name == c)
      → is_left_running c (finally body (remove_container (logging o) name) log).1 ≡ false
  unfolding finally remove_container ◌>>=◌ logging remove_command
  finally-running name body log h k =
      let ended = (body log).1 in
      let answer = o.reply (remove_command name) ended in
      continue-kept (is_left_running c) (λ removed. pure tt)
        (answer, ran (remove_command name) (did_fail answer) ∷ ended) false
        (ground (arith, remove_command-running name (did_fail answer) ended, h log, k))
        (λ removed later. refl)

  answer-running :
      (name : String) (rest : List String) (answer : Result RunResult) (log : List Event)
      (body : Step (List Event) PreflightResult) (not_started : RunResult → PreflightResult)
      → Unchanged (is_left_running c) body
      → is_left_running c log ≡ false
      → is_left_running c
          (continue
            (λ start.
              if failed start
              then pure (not_started start)
              else finally body (remove_container (logging o) name))
            (answer, ran (run_command name rest) (did_fail answer) ∷ log)).1
        ≡ false
  answer-running name rest (raise e) log body not_started h k =
      ground (arith, run_command-running name rest true log, k)
  answer-running name rest (ok start) log body not_started h k = elim (Bool-cases (failed start)) [
    | inl failed_start ↦ rw failed_start (ground (arith, run_command-running name rest true log, k))
    | inr started ↦ rw started (
        finally-running name body (ran (run_command name rest) false ∷ log) h
          (ground (arith, run_command-running name rest false log, k)))
  ]

  pub run_container-running :
      (base_image timestamp name : String) (repo_packages direct_installs options : List String)
      (log : List Event)
      → is_left_running c log ≡ false
      → is_left_running c
          (run_container
            (logging o)
            snapshot
            base_image
            repo_packages
            direct_installs
            options
            timestamp
            name
            log).1
        ≡ false
  unfolding run_container ◌>>=◌ logging is_left_running begins_with run_command
  run_container-running base_image timestamp name repo_packages direct_installs options log h =
      let rest = options ++ (base_image ∷ "sleep" ∷ "infinity" ∷ []) in
      answer-running name rest (o.reply (run_command name rest) log) log _ _
        (run_checks_in_container-Unchanged (is_left_running c) o snapshot (exec_in name)
          (λ cmd failed later. refl) base_image timestamp repo_packages direct_installs)
        h
