-- ===== src/Preflight/Log.antt =====
-- A machine that logs what is done to it.
use yoinkc.Base.{
  String, Bool, true, false, not, ◌&&◌, ◌||◌, Option, List, [], ◌∷◌, ◌==◌, string_eq, Result, ok,
  raise, is_ok, if◌then◌else◌,
}
use yoinkc.Executor.{RunResult, failed}
use yoinkc.Preflight.Run.{Machine, host_cmd}

-- A command and whether it failed or raised, a new directory, a write below a directory and whether it raised, and the
-- removal of a directory.
pub data Event : Type 0 where
  ran : List String → Bool → Event
  wrote : String → Bool → Event
  staged unstaged : String → Event

-- What the machine answers or raises, by what was done before, the last first.
pub record Oracle : Type 0 where
  pub reply : List String → List Event → Result RunResult
  pub directory : List Event → Result String
  pub write : String → String × String → List Event → Result (Unit {0})
  pub is_dir : String → List Event → Result Bool
  pub uuid : List Event → String
  pub time : List Event → String
  pub sections : String → Option (List String)

abbrev pub did_fail : Result RunResult → Bool
did_fail (ok result) = failed result
did_fail (raise e) = true

abbrev pub with_directory : Result String → List Event → List Event
with_directory (ok dir) log = staged dir ∷ log
with_directory (raise e) log = log

unfoldable pub logging : Oracle → Machine (List Event)
logging o = record {
  execute = λ cmd log. (o.reply cmd log, ran cmd (did_fail (o.reply cmd log)) ∷ log);
  make_directory = λ log. (o.directory log, with_directory (o.directory log) log);
  write_file =
      λ dir file log. (o.write dir file log, wrote dir (not (is_ok (o.write dir file log))) ∷ log);
  is_dir = λ dir log. (o.is_dir dir log, log);
  remove_tree = λ dir log. unstaged dir ∷ log;
  short_uuid = λ log. (o.uuid log, log);
  now = λ log. (o.time log, log);
  sections = o.sections;
}

unfoldable pub begins_with : List String → List String → Bool
unfolding string_eq
begins_with cmd [] = true
begins_with [] (p ∷ ps) = false
begins_with (x ∷ cmd) (p ∷ ps) = x == p && begins_with cmd ps

-- The container was started, by a command that did not fail, and no command to remove it came after that. What a command
-- that fails or raises leaves is up to podman, and counts as nothing.
unfoldable pub is_left_running : String → List Event → Bool
unfolding begins_with
is_left_running c [] = false
is_left_running c (ran cmd failed ∷ log) =
    let before = is_left_running c log in
    if begins_with cmd (host_cmd ("podman" ∷ "rm" ∷ "-f" ∷ c ∷ []))
    then false
    else (begins_with cmd (host_cmd ("podman" ∷ "run" ∷ "-d" ∷ "--name" ∷ c ∷ [])) && not failed)
      || before
is_left_running c (wrote dir raised ∷ log) = is_left_running c log
is_left_running c (staged dir ∷ log) = is_left_running c log
is_left_running c (unstaged dir ∷ log) = is_left_running c log

-- The directory was made, and not removed after that.
unfoldable pub is_left_staged : String → List Event → Bool
unfolding string_eq
is_left_staged d [] = false
is_left_staged d (ran cmd failed ∷ log) = is_left_staged d log
is_left_staged d (wrote dir raised ∷ log) = is_left_staged d log
is_left_staged d (staged dir ∷ log) = let before = is_left_staged d log in d == dir || before
is_left_staged d (unstaged dir ∷ log) =
    let before = is_left_staged d log in if d == dir then false else before

-- A write below the directory raised.
unfoldable pub has_failed_write : String → List Event → Bool
unfolding string_eq
has_failed_write d [] = false
has_failed_write d (ran cmd failed ∷ log) = has_failed_write d log
has_failed_write d (wrote dir raised ∷ log) =
    let before = has_failed_write d log in (d == dir && raised) || before
has_failed_write d (staged dir ∷ log) = has_failed_write d log
has_failed_write d (unstaged dir ∷ log) = has_failed_write d log
