-- ===== src/Executor.antt =====
-- executor.py: what a command returns.
use yoinkc.Base.{ℕ, String, Bool, not, ◌==◌, nat_eq}

-- Of the return code only is read whether it is 0.
pub record RunResult : Type 0 where
  pub returncode : ℕ
  pub stdout : String
  pub stderr : String

unfoldable pub failed : RunResult → Bool
unfolding nat_eq
failed e = not (e.returncode == 0)
