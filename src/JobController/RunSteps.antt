-- ===== src/JobController/RunSteps.antt =====
-- What the parts of `syncJob` add to the starts of a job, and what they count.
use k8s_docker_operator.Prelude.{
  ℕ, suc, ◌+◌, ◌≤◌, ◌<◌, ◌≡◌, refl, ap, ◌∙◌, inl, inr, Bool, true, false, List, [], String, sym,
  Bool-cases, arith,
}
use mathlib.Core.Bool.{false≢true}
use native.Mathlib.Nat.{add-zero}
use k8s_docker_operator.Prelude.Int.{ℤ, pos, ◌+ℤ◌, leb_ℤ, eqb_ℤ, int32}
use k8s_docker_operator.Exec.{Result, ok, err, branch, raise, handle, ◌>>=◌}
use k8s_docker_operator.Api.Job.{DockerJob, is_finished}
use k8s_docker_operator.Outside.Docker.{Client}
use k8s_docker_operator.Outside.Calls.{Env, World, Effect, act, container_started}
use k8s_docker_operator.Outside.Time.{clock}
use k8s_docker_operator.JobController.Create.{prepare_container, create_and_start_container}
use k8s_docker_operator.JobController.Sync.{
  keep, mark_succeeded, mark_failed, update_status, set_status, remove_container, started,
  start_failed, start_job, retried, retry_failed, past_deadline, watch_on, terminate, watch_job,
  retry_job, finish_job, conclude,
}
use k8s_docker_operator.JobController.Runs.{
  runs, written, Log-prepare, Log-remove, Log-handle_ttl_cleanup, Log-past_deadline,
}

-- What a pass leaves: with `n` starts before it and a limit of `b` retries, at most b + 1 starts are
-- made, and a job that has not finished has counted them all.
abbrev pub Post : ℕ → ℕ → DockerJob → List Effect → Type 0
Post b n job t =
    ((written job t).spec.backoff_limit ≡ pos b)
    × (n + runs t ≤ b + 1)
    × (is_finished (written job t).status.phase ≡ false
        → (written job t).status.attempts ≡ pos (n + runs t))

module _ {W F : Type 0} (env : Env W F) (cli : Client) (job : DockerJob) (w : World W) where
  abbrev pub created : Result (Unit {0}) × World W
  created = create_and_start_container env cli job w

  prepare-branch :
      (r : Result String) (v : World W)
      → let c = branch (λ id. act (container_started cli id) (env.docker.start cli id)) raise r v in
        (written job c.1.trace ≡ written job v.trace)
        × (runs c.1.trace ≤ suc (runs v.trace))
        × (c.0 ≡ ok tt → runs c.1.trace ≡ suc (runs v.trace))
  unfolding branch act raise
  prepare-branch (ok id) v = (refl, omega arith, λ _. refl)
  prepare-branch (err e) v = (refl, omega arith, λ p. cc)

  pub created-Log :
      (written job created.1.trace ≡ written job w.trace)
      × (runs created.1.trace ≤ suc (runs w.trace))
      × (created.0 ≡ ok tt → runs created.1.trace ≡ suc (runs w.trace))
  unfolding create_and_start_container ◌>>=◌
  created-Log =
      let p = prepare_container env cli job w in
      let kept =
        (Log-prepare env job (runs w.trace) (written job w.trace) cli job).at w (refl, refl) in
      let b = prepare-branch p.0 p.1 in
      (b.0 ∙ kept.1, omega (arith, kept.0, b.1), λ p. b.2 p ∙ ap suc kept.0)

module _ {W F : Type 0} (env : Env W F) (cli : Client) (job₀ job : DockerJob) where
  -- The branches after a creation that ended in `v` with the answer `r`.
  started-branch :
      (b : ℕ) (r : Result (Unit {0})) (v : World W)
      → job.spec.backoff_limit ≡ pos b
      → job.status.attempts ≡ pos 0
      → runs v.trace ≤ 1
      → (r ≡ ok tt → runs v.trace ≡ 1)
      → Post b 0 job₀ (branch (λ _. started env job) (start_failed env job) r v).1.trace
  unfolding branch started start_failed set_status update_status clock act ◌>>=◌ int32 ◌+ℤ◌
  started-branch b (ok _) v spec none_yet few one = ground (arith, one refl)
  started-branch b (err e) v spec none_yet few one = ground arith

  retried-branch :
      (b n : ℕ) (code : ℤ) (r : Result (Unit {0})) (v : World W)
      → job.spec.backoff_limit ≡ pos b
      → b < 2147483647
      → job.status.attempts ≡ pos n
      → n ≤ b
      → runs v.trace ≤ 1
      → (r ≡ ok tt → runs v.trace ≡ 1)
      → Post b n job₀ (branch (λ _. retried env job) (retry_failed env job code) r v).1.trace
  unfolding branch retried retry_failed set_status update_status clock act ◌>>=◌ int32 ◌+ℤ◌
  retried-branch b n code (ok _) v spec fits counted left few one = ground (arith, one refl)
  retried-branch b n code (err e) v spec fits counted left few one = ground arith

module _ {W F : Type 0} (env : Env W F) (cli : Client) (job : DockerJob) (w : World W)
    (fresh : w.trace ≡ []) where
  pub start_job-Post :
      (b : ℕ)
      → job.spec.backoff_limit ≡ pos b
      → job.status.attempts ≡ pos 0
      → Post b 0 job (start_job env cli job w).1.trace
  unfolding start_job handle
  start_job-Post b spec none_yet =
      let log = created-Log env cli job w in
      let none_before : runs w.trace ≡ 0 = ap runs fresh in
      started-branch env cli job job b (created env cli job w).0 (created env cli job w).1 spec
        none_yet (omega (arith, log.1)) (λ p. log.2 p ∙ ap suc none_before)

  watched-branch :
      (b n : ℕ) (id : String) (r : Result Bool) (v : World W)
      → job.spec.backoff_limit ≡ pos b
      → n ≤ b + 1
      → job.status.attempts ≡ pos n
      → runs v.trace ≡ 0
      → written job v.trace ≡ job
      → Post b n job (branch (watch_on env cli job id) raise r v).1.trace
  unfolding branch raise watch_on terminate set_status update_status remove_container clock act
      ◌>>=◌
  watched-branch b n id (ok true) v spec few counted none_yet same = ground arith
  watched-branch b n id (ok false) v spec few counted none_yet same = ground arith
  watched-branch b n id (err e) v spec few counted none_yet same =
      rw (same, none_yet) (spec, omega arith, λ _. rw add-zero counted)

  pub watch_job-Post :
      (b n : ℕ) (id : String)
      → job.spec.backoff_limit ≡ pos b
      → n ≤ b + 1
      → job.status.attempts ≡ pos n
      → Post b n job (watch_job env cli job id w).1.trace
  unfolding watch_job ◌>>=◌
  watch_job-Post b n id spec few counted =
      let kept =
        (Log-past_deadline env job 0 job job).at w (ap runs fresh, ap (written job) fresh) in
      watched-branch b n id (past_deadline env job w).0 (past_deadline env job w).1 spec few counted
        kept.0 kept.1

  -- `exited` is the job with the exit code and the completion time.
  retry_job-Post :
      (b n : ℕ) (id : String) (code : ℤ) (exited : DockerJob)
      → exited.spec.backoff_limit ≡ pos b
      → b < 2147483647
      → exited.status.attempts ≡ pos n
      → n ≤ b
      → Post b n job (retry_job env cli exited id code w).1.trace
  unfolding retry_job handle ◌>>=◌
  retry_job-Post b n id code exited spec fits counted left =
      let w₁ = (remove_container env cli id w).1 in
      let log = created-Log env cli exited w₁ in
      let kept = (Log-remove env job 0 job cli id).at w (ap runs fresh, ap (written job) fresh) in
      retried-branch env cli job exited b n code (created env cli exited w₁).0
        (created env cli exited w₁).1 spec fits counted left (omega (arith, log.1, kept.0))
        (λ p. log.2 p ∙ ap suc kept.0)

  finish_job-Post :
      (b n : ℕ) (last : DockerJob)
      → last.spec.backoff_limit ≡ pos b
      → is_finished last.status.phase ≡ true
      → n ≤ b + 1
      → Post b n job (finish_job env cli last w).1.trace
  unfolding finish_job update_status act ◌>>=◌
  finish_job-Post b n last spec ended few =
      let w₁ = (update_status env last w).1 in
      let stored = keep last (env.jobs.update_status last w.outside).0 in
      let kept = (Log-handle_ttl_cleanup env job 0 last cli stored).at w₁ (ap runs fresh, refl) in
      rw (kept.1, kept.0) (spec, omega arith, λ open_. absurd (false≢true (sym open_ ∙ ended)))

  pub conclude-Post :
      (b n : ℕ) (id : String) (code : ℤ) (exited : DockerJob)
      → exited.spec.backoff_limit ≡ pos b
      → b < 2147483647
      → exited.status.attempts ≡ pos n
      → n ≤ b + 1
      → Post b n job (conclude env cli exited id code w).1.trace
  unfolding conclude
  conclude-Post b n id code exited spec fits counted few = elim (Bool-cases (eqb_ℤ code (pos 0))) [
    | inl zero_exit ↦ rw zero_exit (finish_job-Post b n (mark_succeeded exited) spec refl few)
    | inr failure ↦ elim (Bool-cases (leb_ℤ exited.status.attempts exited.spec.backoff_limit)) [
      | inl left ↦
          rw (failure, left) (retry_job-Post b n id code exited spec fits counted (ground arith))
      | inr spent ↦
          rw (failure, spent) (finish_job-Post b n (mark_failed code exited) spec refl few)
    ]
  ]
