-- ===== src/JobController/Runs.antt =====
-- How often the container of a job is started.
use k8s_docker_operator.Prelude.{ℕ, suc, ◌≡◌, List, [], ◌∷◌, String}
use k8s_docker_operator.Prelude.Int.{ℤ}
use k8s_docker_operator.Exec.{Result}
use k8s_docker_operator.Exec.Keeps.{Keeps, Keeps-bind, keeps_rules}
use k8s_docker_operator.Api.Job.{DockerJob}
use k8s_docker_operator.Api.Container.{SecretVolume, EnvVar}
use k8s_docker_operator.Outside.Docker.{Client}
use k8s_docker_operator.Outside.Calls.{
  Env, World, Effect, ask, act, container_started, job_status_updated,
}
use k8s_docker_operator.Outside.Time.{clock}
use k8s_docker_operator.Common.Secrets.{
  get_secret_value, get_auth_config, upload_secret_to_container,
}
use k8s_docker_operator.JobController.Create.{
  env_value, resolve_env, pull_auth, upload_all, prepare_container,
}
use k8s_docker_operator.JobController.Sync.{
  remove_container, expire, handle_ttl_cleanup, past_deadline,
}

-- The starts among the noted calls.
abbrev pub runs : List Effect → ℕ
runs [] = 0
runs (container_started _ _ ∷ t) = suc (runs t)
runs (_ ∷ t) = runs t

-- The job as the newest noted status update wrote it.
abbrev pub written : DockerJob → List Effect → DockerJob
written job [] = job
written job (job_status_updated j ∷ t) = j
written job (_ ∷ t) = written job t

module _ {W : Type 0} (job : DockerJob) (n : ℕ) (j : DockerJob) where
  -- `n` starts are noted, and the job was last written as `j`.
  abbrev pub Log : World W → Type 0
  Log w = (runs w.trace ≡ n) × (written job w.trace ≡ j)

-- A call that is neither a start nor a status update.
abbrev IsOther : Effect → Type 0
IsOther (container_started _ _) = ⊥
IsOther (job_status_updated _) = ⊥
IsOther _ = Unit

module _ {W A : Type 0} (job : DockerJob) (n : ℕ) (j : DockerJob) where
  Log-ask : (f : W → Result A × W) → Keeps (Log job n j) (ask f)
  unfolding ask
  Log-ask f = record { at = λ w h. h }

  Log-act : (e : Effect) (f : W → Result A × W) → IsOther e → Keeps (Log job n j) (act e f)
  unfolding act
  Log-act e f o = record { at = λ w h. other e w o h }
    where
      other :
          (e : Effect) (w : World W)
          → IsOther e
          → Log job n j w
          → (runs (e ∷ w.trace) ≡ n) × (written job (e ∷ w.trace) ≡ j)
      other (container_started _ _) w o h = absurd o
      other (job_status_updated _) w o h = absurd o
      other _ w o h = h

module _ {W F : Type 0} (env : Env W F) (job : DockerJob) (n : ℕ) (j : DockerJob) where
  Log-clock : Keeps (Log job n j) (clock env)
  unfolding clock
  Log-clock = record { at = λ w h. h }

ruleset log_rules = (keeps_rules, Log-ask, Log-act, Log-clock)

module _ {W F : Type 0} (env : Env W F) (job₀ : DockerJob) (n : ℕ) (j : DockerJob) where
  Log-env_value : (ns : String) (ev : EnvVar) → Keeps (Log job₀ n j) (env_value env ns ev)
  unfolding env_value get_secret_value
  Log-env_value ns ev = search log_rules

  Log-resolve_env :
      (ns : String) (out : List String) (evs : List EnvVar)
      → Keeps (Log job₀ n j) (resolve_env env ns out evs)
  unfolding resolve_env
  Log-resolve_env ns out [] = search log_rules
  Log-resolve_env ns out (ev ∷ evs) =
      search (log_rules, Log-env_value, λ (o : List String). Log-resolve_env ns o evs)

  Log-pull_auth : (job : DockerJob) → Keeps (Log job₀ n j) (pull_auth env job)
  unfolding pull_auth get_auth_config
  Log-pull_auth job = search log_rules depth 7

  Log-upload_secret :
      (cli : Client) (ns : String) (sv : SecretVolume) (id : String)
      → Keeps (Log job₀ n j) (upload_secret_to_container env cli ns sv id)
  unfolding upload_secret_to_container
  Log-upload_secret cli ns sv id = search log_rules

  Log-upload_all :
      (cli : Client) (ns id : String) (svs : List SecretVolume)
      → Keeps (Log job₀ n j) (upload_all env cli ns id svs)
  unfolding upload_all
  Log-upload_all cli ns id [] = search log_rules
  Log-upload_all cli ns id (sv ∷ svs) =
      Keeps-bind (upload_secret_to_container env cli ns sv id) _ (Log-upload_secret cli ns sv id)
        (λ _. Log-upload_all cli ns id svs)

  pub Log-prepare :
      (cli : Client) (job : DockerJob) → Keeps (Log job₀ n j) (prepare_container env cli job)
  unfolding prepare_container
  Log-prepare cli job = search (log_rules, Log-pull_auth, Log-resolve_env, Log-upload_all) depth 10

  pub Log-remove :
      (cli : Client) (name : String) → Keeps (Log job₀ n j) (remove_container env cli name)
  unfolding remove_container
  Log-remove cli name = search log_rules

  Log-expire :
      (cli : Client) (job : DockerJob) (ttl completed : ℤ)
      → Keeps (Log job₀ n j) (expire env cli job ttl completed)
  unfolding expire
  Log-expire cli job ttl completed = search (log_rules, Log-remove) depth 7

  pub Log-handle_ttl_cleanup :
      (cli : Client) (job : DockerJob) → Keeps (Log job₀ n j) (handle_ttl_cleanup env cli job)
  unfolding handle_ttl_cleanup
  Log-handle_ttl_cleanup cli job = search (log_rules, Log-expire)

  pub Log-past_deadline : (job : DockerJob) → Keeps (Log job₀ n j) (past_deadline env job)
  unfolding past_deadline
  Log-past_deadline job = search log_rules depth 7
