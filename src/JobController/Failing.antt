-- ===== src/JobController/Failing.antt =====
-- A job whose container exits with an error each time.
use k8s_docker_operator.Prelude.{
  ℕ, suc, ◌+◌, ◌≤◌, ◌<◌, ◌≡◌, refl, ap, ◌∙◌, ◌⊎◌, inl, inr, true, false, List, [], ◌∷◌, some, All,
  length, str_eq, Bool-cases, String, arith,
}
use k8s_docker_operator.Prelude.Int.{ℤ, pos, ◌+ℤ◌, int32, eqb_ℤ, leb_ℤ}
use k8s_docker_operator.Exec.{Result, ok, err, branch, given, handle, ◌>>=◌}
use k8s_docker_operator.Api.Job.{DockerJob, failed, is_finished}
use k8s_docker_operator.Outside.Docker.{Client, Inspected, ContainerState}
use k8s_docker_operator.Outside.Calls.{Env, World, ask, act, job_status_updated}
use k8s_docker_operator.Outside.Time.{clock}
use k8s_docker_operator.JobController.Create.{container_name}
use k8s_docker_operator.JobController.Sync.{
  keep, mark_failed, mark_exited, update_status, set_status, retried, retry_failed, retry_job,
  finish_job, conclude, exited_job, by_state, sync_job,
}
use k8s_docker_operator.JobController.Reconcile.{advance}
use k8s_docker_operator.JobController.Runs.{runs, written, Log-handle_ttl_cleanup}

module _ {W F : Type 0} (env : Env W F) (cli : Client) where
  -- The job as the last status update of some passes wrote it, each pass from what the one before wrote.
  abbrev pub last_written : DockerJob → List (World W) → DockerJob
  last_written job [] = job
  last_written job (w ∷ ws) = last_written (written job (advance env cli job w).1.trace) ws

  -- At the beginning of a pass no call is noted, and the container of this name has exited with an error.
  abbrev pub HasExited : String → World W → Type 0
  HasExited name w =
      (w.trace ≡ [])
      × (c : Inspected) × (state : ContainerState) × ((env.docker.inspect cli name w.outside).0
          ≡ ok c)
      × (c.state ≡ some state)
      × (state.running ≡ false)
      × (str_eq state.status "exited" ≡ true)
      × (eqb_ℤ (int32 state.exit_code) (pos 0) ≡ false)

  -- The job `j` after a pass over `job` that had counted `n` attempts.
  abbrev Next : ℕ → ℕ → DockerJob → DockerJob → Type 0
  Next b n job j =
      (j.meta ≡ job.meta)
      × (j.spec ≡ job.spec)
      × ((j.status.phase ≡ failed)
          ⊎ ((is_finished j.status.phase ≡ false) × (j.status.attempts ≡ pos (suc n)) × (n ≤ b)))

  module _ (job₀ job : DockerJob) where
    retried-Next :
        (b n : ℕ) (code : ℤ) (r : Result (Unit {0})) (v : World W)
        → b < 2147483647
        → job.status.attempts ≡ pos n
        → n ≤ b
        → Next b n job
            (written job₀ (branch (λ _. retried env job) (retry_failed env job code) r v).1.trace)
    unfolding branch retried retry_failed set_status update_status clock act ◌>>=◌ int32 ◌+ℤ◌
    retried-Next b n code (ok _) v fits counted left =
        (refl, refl, inr (refl, ground (arith, counted), left))
    retried-Next b n code (err e) v fits counted left = (refl, refl, inl refl)

    retry_job-Next :
        (b n : ℕ) (id : String) (code : ℤ) (v : World W)
        → b < 2147483647
        → job.status.attempts ≡ pos n
        → n ≤ b
        → Next b n job (written job₀ (retry_job env cli job id code v).1.trace)
    unfolding retry_job handle ◌>>=◌
    retry_job-Next b n id code v fits counted left = retried-Next b n code _ _ fits counted left

    finish_job-Next :
        (b n : ℕ) (code : ℤ) (v : World W)
        → Next b n job (written job₀ (finish_job env cli (mark_failed code job) v).1.trace)
    unfolding finish_job update_status act ◌>>=◌
    finish_job-Next b n code v =
        let (r, v') =
          act (job_status_updated (mark_failed code job))
            (env.jobs.update_status (mark_failed code job)) v in
        let kept =
          (Log-handle_ttl_cleanup env job₀ (runs v'.trace) (mark_failed code job) cli
              (keep (mark_failed code job) r)).at
            v' (refl, refl) in
        rw kept.1 (refl, refl, inl refl)

    conclude-Next :
        (b n : ℕ) (id : String) (code : ℤ) (v : World W)
        → b < 2147483647
        → job.spec.backoff_limit ≡ pos b
        → job.status.attempts ≡ pos n
        → eqb_ℤ code (pos 0) ≡ false
        → Next b n job (written job₀ (conclude env cli job id code v).1.trace)
    unfolding conclude
    conclude-Next b n id code v fits spec counted bad =
        elim (Bool-cases (leb_ℤ job.status.attempts job.spec.backoff_limit)) [
          | inl left ↦ rw (bad, left) (retry_job-Next b n id code v fits counted (ground arith))
          | inr spent ↦ rw (bad, spent) (finish_job-Next b n code v)
        ]

  exited_job-Next :
      (job₀ job : DockerJob) (b n : ℕ) (id : String) (code : ℤ) (v : World W)
      → b < 2147483647
      → job.spec.backoff_limit ≡ pos b
      → job.status.attempts ≡ pos n
      → eqb_ℤ (int32 code) (pos 0) ≡ false
      → Next b n job (written job₀ (exited_job env cli job id code v).1.trace)
  unfolding exited_job clock ◌>>=◌
  exited_job-Next job₀ job b n id code v fits spec counted bad =
      conclude-Next job₀ (mark_exited id (int32 code) (env.now v.outside).0 job) b n id (int32 code)
        _ fits spec counted bad

  sync_job-exited :
      (job : DockerJob) (w : World W) (c : Inspected) (state : ContainerState)
      → (env.docker.inspect cli (container_name job) w.outside).0 ≡ ok c
      → c.state ≡ some state
      → state.running ≡ false
      → str_eq state.status "exited" ≡ true
      → sync_job env cli job w
        ≡ exited_job env cli job c.id state.exit_code
            (record w { outside = (env.docker.inspect cli (container_name job) w.outside).1 })
  unfolding sync_job handle branch ask given by_state
  sync_job-exited job w c state answered seen down out = rw (answered, seen, down, out) refl

  advance-Next :
      (job : DockerJob) (w : World W) (b n : ℕ)
      → b < 2147483647
      → job.spec.backoff_limit ≡ pos b
      → job.status.attempts ≡ pos n
      → is_finished job.status.phase ≡ false
      → HasExited (container_name job) w
      → Next b n job (written job (advance env cli job w).1.trace)
  unfolding advance
  advance-Next job w b n fits spec counted going (fresh, c, state, answered, seen, down, out, bad) =
      rw (going, sync_job-exited job w c state answered seen down out)
        (exited_job-Next job job b n c.id state.exit_code _ fits spec counted bad)

  advance-failed :
      (job : DockerJob) (w : World W)
      → w.trace ≡ []
      → job.status.phase ≡ failed
      → (written job (advance env cli job w).1.trace).status.phase ≡ failed
  unfolding advance
  advance-failed job w fresh ended =
      let ends : is_finished job.status.phase ≡ true = rw ended refl in
      let kept =
        (Log-handle_ttl_cleanup env job 0 job cli job).at w
          (ap runs fresh, ap (written job) fresh) in
      rw (ends, kept.1) ended

  same_name :
      (j job : DockerJob)
      → j.meta ≡ job.meta
      → j.spec ≡ job.spec
      → container_name j ≡ container_name job
  unfolding container_name
  same_name j job same_meta same_spec = rw (same_meta, same_spec) refl

  stays_failed :
      (name : String) (ws : List (World W)) (job : DockerJob)
      → All (HasExited name) ws
      → job.status.phase ≡ failed
      → (last_written job ws).status.phase ≡ failed
  stays_failed name [] job exits ended = ended
  stays_failed name (w ∷ ws) job exits ended =
      stays_failed name ws (written job (advance env cli job w).1.trace) exits.1
        (advance-failed job w exits.0.0 ended)

  ends_failed :
      (name : String) (ws : List (World W)) (job : DockerJob) (b n : ℕ)
      → b < 2147483647
      → container_name job ≡ name
      → job.spec.backoff_limit ≡ pos b
      → job.status.attempts ≡ pos n
      → is_finished job.status.phase ≡ false
      → b + 2 ≤ n + length ws
      → n ≤ b + 1
      → All (HasExited name) ws
      → (last_written job ws).status.phase ≡ failed
  ends_failed name [] job b n fits named spec counted going enough few exits =
      absurd (omega (arith, enough, few))
  ends_failed name (w ∷ ws) job b n fits named spec counted going enough few exits =
      let j = written job (advance env cli job w).1.trace in
      let next = advance-Next job w b n fits spec counted going (rw named exits.0) in
      elim next.2 [
        | inl ended ↦ stays_failed name ws j exits.1 ended
        | inr (open_, more, left) ↦
            ends_failed name ws j b (suc n) fits (same_name j job next.0 next.1 ∙ named)
              (ap (λ sp. sp.backoff_limit) next.1 ∙ spec) more open_ (omega (arith, enough))
              (omega (arith, left)) exits.1
      ]

  -- A job that has not finished, has counted n attempts and has a limit of b retries, with b below
  -- 2147483647 and n at most b + 1, is
  -- failed after b + 2 - n passes or more, if each pass begins from what the last status update wrote and
  -- finds the job's container exited with an error; whatever the other calls answer.
  pub last_written-failed :
      (ws : List (World W)) (job : DockerJob) (b n : ℕ)
      → job.spec.backoff_limit ≡ pos b
      → b < 2147483647
      → job.status.attempts ≡ pos n
      → n ≤ b + 1
      → is_finished job.status.phase ≡ false
      → All (HasExited (container_name job)) ws
      → b + 2 ≤ n + length ws
      → (last_written job ws).status.phase ≡ failed
  last_written-failed ws job b n spec fits counted few going exits enough =
      ends_failed (container_name job) ws job b n fits refl spec counted going enough few exits
