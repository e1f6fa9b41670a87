-- ===== src/JobController/RunBound.antt =====
-- A job is run at most as often as its limit of retries allows.
use k8s_docker_operator.Prelude.{
  ℕ, suc, ◌+◌, ◌≤◌, ◌<◌, ◌≡◌, refl, ap, ◌∙◌, inl, inr, true, false, List, [], Option, none, some,
  str_eq, String, Bool-cases, arith, if◌then◌else◌,
}
use native.Mathlib.Nat.{add-zero}
use k8s_docker_operator.Prelude.Int.{ℤ, pos, int32}
use k8s_docker_operator.Exec.{Error, Result, ok, err, branch, raise, pure, given, handle, ◌>>=◌}
use k8s_docker_operator.Api.Job.{DockerJob, running, is_finished}
use k8s_docker_operator.Outside.Docker.{Client, Inspected, ContainerState}
use k8s_docker_operator.Outside.Calls.{Env, World, Effect, ask, act}
use k8s_docker_operator.Outside.Time.{clock}
use k8s_docker_operator.JobController.Create.{container_name, create_and_start_container}
use k8s_docker_operator.Outside.Requeue.{again}
use k8s_docker_operator.JobController.Sync.{
  poll_delay, mark_exited, update_status, handle_ttl_cleanup, started, start_failed, start_job,
  exited_job, by_state, sync_job,
}
use k8s_docker_operator.JobController.Reconcile.{advance}
use k8s_docker_operator.JobController.Runs.{runs, written, Log-handle_ttl_cleanup}
use k8s_docker_operator.JobController.RunSteps.{
  created, created-Log, Post, start_job-Post, watch_job-Post, conclude-Post,
}

module _ {W F : Type 0} (env : Env W F) (cli : Client) (job : DockerJob) (w : World W)
    (fresh : w.trace ≡ []) where
  exited_job-Post :
      (b n : ℕ) (id : String) (code : ℤ)
      → job.spec.backoff_limit ≡ pos b
      → b < 2147483647
      → job.status.attempts ≡ pos n
      → n ≤ b + 1
      → Post b n job (exited_job env cli job id code w).1.trace
  unfolding exited_job clock ◌>>=◌
  exited_job-Post b n id code spec fits counted few =
      let w₁ = record w { outside = (env.now w.outside).1 } in
      conclude-Post env cli job w₁ fresh b n id (int32 code)
        (mark_exited id (int32 code) (env.now w.outside).0 job) spec fits counted few

  -- A pass that does nothing.
  idle-Post :
      (b n : ℕ) (t : List Effect)
      → t ≡ []
      → job.spec.backoff_limit ≡ pos b
      → n ≤ b + 1
      → job.status.attempts ≡ pos n
      → Post b n job t
  idle-Post b n t idle spec few counted = rw idle (spec, omega arith, λ _. rw add-zero counted)

  by_state-Post :
      (b n : ℕ) (id : String) (state : ContainerState)
      → job.spec.backoff_limit ≡ pos b
      → b < 2147483647
      → job.status.attempts ≡ pos n
      → n ≤ b + 1
      → Post b n job (by_state env cli job id state w).1.trace
  unfolding by_state pure
  by_state-Post b n id state spec fits counted few = elim (Bool-cases state.running) [
    | inl up ↦ rw up (watch_job-Post env cli job w fresh b n id spec few counted)
    | inr down ↦ elim (Bool-cases (str_eq state.status "exited")) [
      | inl out ↦ rw (down, out) (exited_job-Post b n id state.exit_code spec fits counted few)
      | inr busy ↦ rw (down, busy) (idle-Post b n w.trace fresh spec few counted)
    ]
  ]

-- The answer of the inspection in `syncJob`.
module _ {W F : Type 0} (env : Env W F) (cli : Client) (job : DockerJob) where
  given_state-Post :
      (b n : ℕ) (id : String) (state : Option ContainerState) (v : World W)
      → v.trace ≡ []
      → job.spec.backoff_limit ≡ pos b
      → b < 2147483647
      → job.status.attempts ≡ pos n
      → n ≤ b + 1
      → Post b n job (given state (by_state env cli job id) (pure (again poll_delay)) v).1.trace
  unfolding given pure
  given_state-Post b n id none v fresh spec fits counted few =
      idle-Post env cli job v fresh b n v.trace fresh spec few counted
  given_state-Post b n id (some state) v fresh spec fits counted few =
      by_state-Post env cli job v fresh b n id state spec fits counted few

  -- A missing container is met only before the first start.
  inspected-Post :
      (b n : ℕ) (r : Result Inspected) (v : World W)
      → v.trace ≡ []
      → ((e : Error) → r ≡ err e → e.not_found ≡ true → n ≡ 0)
      → job.spec.backoff_limit ≡ pos b
      → b < 2147483647
      → job.status.attempts ≡ pos n
      → n ≤ b + 1
      → Post b n job
          (branch
            (λ container.
              given container.state (by_state env cli job container.id) (pure (again poll_delay)))
            (λ e. if e.not_found then start_job env cli job else raise e)
            r
            v).1.trace
  unfolding branch raise
  inspected-Post b n (ok c) v fresh missing spec fits counted few =
      given_state-Post b n c.id c.state v fresh spec fits counted few
  inspected-Post b n (err e) v fresh missing spec fits counted few = elim (Bool-cases e.not_found) [
    | inl gone ↦
        let first = missing e refl gone in
        rw (gone, first) (start_job-Post env cli job v fresh b spec (counted ∙ ap pos first))
    | inr other ↦ rw other (idle-Post env cli job v fresh b n v.trace fresh spec few counted)
  ]

module _ {W F : Type 0} (env : Env W F) (cli : Client) where
  sync_job-Post :
      (job : DockerJob) (w : World W) (b n : ℕ)
      → w.trace ≡ []
      → ((e : Error)
          → (env.docker.inspect cli (container_name job) w.outside).0 ≡ err e
          → e.not_found ≡ true
          → n ≡ 0)
      → job.spec.backoff_limit ≡ pos b
      → b < 2147483647
      → job.status.attempts ≡ pos n
      → n ≤ b + 1
      → Post b n job (sync_job env cli job w).1.trace
  unfolding sync_job handle ask
  sync_job-Post job w b n fresh missing spec fits counted few =
      let answer = env.docker.inspect cli (container_name job) w.outside in
      inspected-Post env cli job b n answer.0 (record w { outside = answer.1 }) fresh missing spec
        fits counted few

  -- The passes over a job (the last steps of `Reconcile`), with the number of starts so far and the job as
  -- the last status update wrote it: each pass begins from the job that the one before wrote, and the
  -- container is only found missing before the first start.
  pub data History (first : DockerJob) : ℕ → DockerJob → Type 0 where
    begun : History first 0 first
    pass :
        {n : ℕ} {job : DockerJob} (w : World W)
        → History first n job
        → w.trace ≡ []
        → ((e : Error)
            → (env.docker.inspect cli (container_name job) w.outside).0 ≡ err e
            → e.not_found ≡ true
            → n ≡ 0)
        → History first
            (n + runs (advance env cli job w).1.trace)
            (written job (advance env cli job w).1.trace)

  abbrev Bounded : ℕ → ℕ → DockerJob → Type 0
  Bounded b n job =
      (job.spec.backoff_limit ≡ pos b)
      × (n ≤ b + 1)
      × (is_finished job.status.phase ≡ false → job.status.attempts ≡ pos n)

  finished-Bounded :
      (job : DockerJob) (w : World W) (b n : ℕ)
      → w.trace ≡ []
      → Bounded b n job
      → Bounded b
          (n + runs (handle_ttl_cleanup env cli job w).1.trace)
          (written job (handle_ttl_cleanup env cli job w).1.trace)
  finished-Bounded job w b n fresh h =
      let kept =
        (Log-handle_ttl_cleanup env job 0 job cli job).at w
          (ap runs fresh, ap (written job) fresh) in
      rw (kept.1, kept.0, add-zero) h

  advance-Bounded :
      (job : DockerJob) (w : World W) (b n : ℕ)
      → w.trace ≡ []
      → ((e : Error)
          → (env.docker.inspect cli (container_name job) w.outside).0 ≡ err e
          → e.not_found ≡ true
          → n ≡ 0)
      → b < 2147483647
      → Bounded b n job
      → Bounded b
          (n + runs (advance env cli job w).1.trace)
          (written job (advance env cli job w).1.trace)
  unfolding advance
  advance-Bounded job w b n fresh missing fits h =
      elim (Bool-cases (is_finished job.status.phase)) [
        | inl ended ↦ rw ended (finished-Bounded job w b n fresh h)
        | inr going ↦ rw going (sync_job-Post job w b n fresh missing h.0 fits (h.2 going) h.1)
      ]

  History-Bounded :
      {first : DockerJob} {n : ℕ} {job : DockerJob} (b : ℕ)
      → first.spec.backoff_limit ≡ pos b
      → first.status.attempts ≡ pos 0
      → b < 2147483647
      → History first n job
      → Bounded b n job
  History-Bounded b spec none_yet fits begun = (spec, omega arith, λ _. none_yet)
  History-Bounded b spec none_yet fits (pass {n = n} {job = job} w past fresh missing) =
      advance-Bounded job w b n fresh missing fits (History-Bounded b spec none_yet fits past)

  -- In any number of passes over a job with no attempt counted and a limit of b retries, b below 2147483647, as
  -- long as every pass begins from what the last status update wrote and finds the container missing only before the
  -- first start, the container is started at most b + 1 times; while the job has not finished, its attempts
  -- are the starts made.
  pub runs_bounded :
      {first : DockerJob} {n : ℕ} {job : DockerJob} (b : ℕ)
      → first.spec.backoff_limit ≡ pos b
      → first.status.attempts ≡ pos 0
      → b < 2147483647
      → History first n job
      → (n ≤ b + 1) × (is_finished job.status.phase ≡ false → job.status.attempts ≡ pos n)
  runs_bounded b spec none_yet fits past =
      let h = History-Bounded b spec none_yet fits past in (h.1, h.2)

  started_ok :
      (job : DockerJob) (r : Result (Unit {0})) (v : World W)
      → r ≡ ok tt
      → (runs (branch (λ _. started env job) (start_failed env job) r v).1.trace ≡ runs v.trace)
        × ((written job
              (branch (λ _. started env job) (start_failed env job) r v).1.trace).status.phase
            ≡ running)
  unfolding branch started update_status clock act ◌>>=◌
  started_ok job (ok u) v h = (refl, refl)
  started_ok job (err e) v h = cc

  -- Where the container is found missing, it is created whatever the attempts and the limit are: if the
  -- creation returns, the pass has made a start more, and the job is written as running.
  pub sync_job-missing :
      (job : DockerJob) (w : World W) (e : Error)
      → (env.docker.inspect cli (container_name job) w.outside).0 ≡ err e
      → e.not_found ≡ true
      → (create_and_start_container env cli job
          (ask (env.docker.inspect cli (container_name job)) w).1).0
        ≡ ok tt
      → (runs (sync_job env cli job w).1.trace ≡ suc (runs w.trace))
        × ((written job (sync_job env cli job w).1.trace).status.phase ≡ running)
  unfolding sync_job start_job handle branch ask
  sync_job-missing job w e answered gone made =
      let v = record w { outside = (env.docker.inspect cli (container_name job) w.outside).1 } in
      let log = created-Log env cli job v in
      let after = started_ok job (created env cli job v).0 (created env cli job v).1 made in
      rw (answered, gone) (after.0 ∙ log.2 made, after.1)
