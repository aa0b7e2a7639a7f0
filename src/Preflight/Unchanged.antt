-- ===== src/Preflight/Unchanged.antt =====
-- What steps that are put together leave unchanged, and the steps of the check that only run commands.
use yoinkc.Base.{
  String, ◌≡◌, refl, ◌∙◌, Bool, true, false, Option, none, some, List, [], ◌∷◌, ◌++◌, Result, ok,
  raise, if◌then◌else◌,
}
use yoinkc.Schema.{InspectionSnapshot}
use yoinkc.Preflight.Steps.{Step, continue, ◌>>=◌, finally}
use yoinkc.Preflight.Container.{run_checks_in_container, bootstrap}
use yoinkc.Preflight.Log.{Event, ran, Oracle, did_fail, logging}
use yoinkc.Preflight.Run.{mount, mount_options}

-- A predicate that holds after a call, whether it returned or raised, and that what follows it keeps.
pub continue-keeps :
    {A B : Type 0} (P : List Event → Type 0) (k : A → Step (List Event) B)
    (p : Result A × List Event)
    → P p.1
    → ((a : A) (log : List Event) → P log → P (k a log).1)
    → P (continue k p).1
continue-keeps P k (ok a, log) h hk = hk a log h
continue-keeps P k (raise e, log) h hk = h

module _ (f : List Event → Bool) where
  abbrev pub Unchanged : {A : Type 0} → Step (List Event) A → Type 0
  Unchanged m = (log : List Event) → f (m log).1 ≡ f log

  pub continue-kept :
      {A B : Type 0} (k : A → Step (List Event) B) (p : Result A × List Event) (before : Bool)
      → f p.1 ≡ before
      → ((a : A) → Unchanged (k a))
      → f (continue k p).1 ≡ before
  continue-kept k (ok a, log) before h hk = hk a log ∙ h
  continue-kept k (raise e, log) before h hk = h

  pub >>=-Unchanged :
      {A B : Type 0} (m : Step (List Event) A) (k : A → Step (List Event) B)
      → Unchanged m
      → ((a : A) → Unchanged (k a))
      → Unchanged (m >>= k)
  unfolding ◌>>=◌
  >>=-Unchanged m k hm hk log = continue-kept k (m log) (f log) (hm log) hk

  pub finally-Unchanged :
      {A : Type 0} (body : Step (List Event) A) (cleanup : Step (List Event) (Unit {0}))
      → Unchanged body
      → Unchanged cleanup
      → Unchanged (finally body cleanup)
  unfolding finally
  finally-Unchanged body cleanup hb hc log = hc (body log).1 ∙ hb log

  pub if_Unchanged :
      {A : Type 0} (b : Bool) (m n : Step (List Event) A)
      → Unchanged m
      → Unchanged n
      → Unchanged (if b then m else n)
  if_Unchanged true m n hm hn = hm
  if_Unchanged false m n hm hn = hn

  module _ (o : Oracle) where
    mount-Unchanged :
        (staging_dir below target : String) → Unchanged (mount (logging o) staging_dir below target)
    unfolding mount logging
    mount-Unchanged staging_dir below target = >>=-Unchanged _ _ (λ log. refl) (λ b log. refl)

    pub mount_options-Unchanged :
        (staging_dir : Option String) → Unchanged (mount_options (logging o) staging_dir)
    unfolding mount_options
    mount_options-Unchanged none = λ log. refl
    mount_options-Unchanged (some staging_dir) =
        >>=-Unchanged _ _ (mount-Unchanged staging_dir "etc/yum.repos.d" "/etc/yum.repos.d/")
          (λ repos.
            >>=-Unchanged _ _ (mount-Unchanged staging_dir "etc/pki/rpm-gpg" "/etc/pki/rpm-gpg/")
              (λ keys.
                >>=-Unchanged _ _ (mount-Unchanged staging_dir "etc/dnf" "/etc/dnf/")
                  (λ confs log. refl)))

    -- Commands in the container change nothing that a command with this prefix leaves unchanged.
    module _ (snapshot : InspectionSnapshot) (exec_base : List String)
        (quiet : (cmd : List String) (failed : Bool) (log : List Event)
          → f (ran (exec_base ++ cmd) failed ∷ log) ≡ f log) where
      execute-Unchanged : (cmd : List String) → Unchanged ((logging o).execute (exec_base ++ cmd))
      unfolding logging
      execute-Unchanged cmd log = quiet cmd (did_fail (o.reply (exec_base ++ cmd) log)) log

      bootstrap-Unchanged :
          (providers : List String)
          → Unchanged (bootstrap (logging o).sections (logging o).execute exec_base providers)
      unfolding bootstrap
      bootstrap-Unchanged [] = λ log. refl
      bootstrap-Unchanged (p ∷ providers) =
          >>=-Unchanged _ _ (execute-Unchanged _) (λ result log. refl)

      pub run_checks_in_container-Unchanged :
          (base_image timestamp : String) (repo_packages direct_installs : List String)
          → Unchanged (
              run_checks_in_container
                (logging o).sections
                (logging o).execute
                snapshot
                exec_base
                base_image
                repo_packages
                direct_installs
                timestamp)
      unfolding run_checks_in_container
      run_checks_in_container-Unchanged base_image timestamp repo_packages direct_installs =
          >>=-Unchanged _ _ (bootstrap-Unchanged _) (λ providers.
            >>=-Unchanged _ _ (execute-Unchanged _)
              (λ query. >>=-Unchanged _ _ (execute-Unchanged _) (λ repolist log. refl)))
