-- ===== src/JobController/Deadline.antt =====
-- When `syncJob` terminates a running container for its deadline.
use k8s_docker_operator.Prelude.{
  ℕ, String, none, ◌≡◌, refl, ap, ◌∙◌, some, ◌∷◌, true, false, arith, ◌≤◌, lt→ltb, le→ltb,
  if◌then◌else◌,
}
use k8s_docker_operator.Prelude.Int.{ℤ, pos, ◌+ℤ◌, ◌*ℤ◌, ◌≤ℤ◌, ◌<ℤ◌, ltb_ℤ, int_laws}
use k8s_docker_operator.Exec.{ok, given, ◌>>=◌}
use k8s_docker_operator.Api.Job.{DockerJob, is_running, failed}
use k8s_docker_operator.Outside.Docker.{Client}
use k8s_docker_operator.Outside.Calls.{
  Env, World, act, job_status_updated, container_stopped, container_removed,
}
use k8s_docker_operator.Outside.Time.{clock, second, seconds}
use k8s_docker_operator.Outside.Durations.{InSeconds, seconds_wraps, seconds_exact_long}
use k8s_docker_operator.Outside.Requeue.{again, done}
use k8s_docker_operator.JobController.Sync.{
  past_deadline, watch_on, watch_job, terminate, set_status, update_status, remove_container,
  with_status, mark_running, poll_delay,
}

module _ {W F : Type 0} (env : Env W F) (cli : Client) (job : DockerJob) (w : World W) where
  abbrev pub now : ℤ
  now = (env.now w.outside).0

  past_deadline_lem :
      (limit started : ℤ)
      → job.spec.active_deadline_seconds ≡ some limit
      → job.status.start_time ≡ some started
      → past_deadline env job w ≡ (ok (ltb_ℤ (started +ℤ seconds limit) now), (clock env w).1)
  unfolding past_deadline given ◌>>=◌ clock
  past_deadline_lem limit started p q = simp (p, q)

  watch_job-late :
      (id : String)
      → past_deadline env job w ≡ (ok true, (clock env w).1)
      → ((watch_job env cli job id w).0 ≡ ok done)
        × (t : ℤ) × ((watch_job env cli job id w).1.trace
            ≡ job_status_updated
                (with_status failed none "Job exceeded ActiveDeadlineSeconds" t job)
              ∷ container_removed cli id
              ∷ container_stopped cli id
              ∷ w.trace)
  unfolding watch_job watch_on terminate set_status update_status remove_container clock act ◌>>=◌
  watch_job-late id e = rw e (
    refl,
    (env.now (env.docker.remove cli id (env.docker.stop cli id (env.now w.outside).1).1).1).0,
    refl,
  )

  watch_job-early :
      (id : String)
      → past_deadline env job w ≡ (ok false, (clock env w).1)
      → ((watch_job env cli job id w).0 ≡ ok (again poll_delay))
        × ((watch_job env cli job id w).1.trace ≡ (
            if is_running job.status.phase
            then w.trace
            else job_status_updated (mark_running id job) ∷ w.trace))
  unfolding watch_job watch_on update_status clock act ◌>>=◌
  watch_job-early id e = rw e (ground arith)

  abbrev pub IsTerminated : String → Type 0
  IsTerminated id =
      ((watch_job env cli job id w).0 ≡ ok done)
      × (t : ℤ) × ((watch_job env cli job id w).1.trace
          ≡ job_status_updated (with_status failed none "Job exceeded ActiveDeadlineSeconds" t job)
            ∷ container_removed cli id
            ∷ container_stopped cli id
            ∷ w.trace)

  abbrev pub IsWatched : String → Type 0
  IsWatched id =
      ((watch_job env cli job id w).0 ≡ ok (again poll_delay))
      × ((watch_job env cli job id w).1.trace ≡ (
          if is_running job.status.phase
          then w.trace
          else job_status_updated (mark_running id job) ∷ w.trace))

  late-IsTerminated :
      (id : String) (limit started : ℤ)
      → job.spec.active_deadline_seconds ≡ some limit
      → job.status.start_time ≡ some started
      → started +ℤ seconds limit <ℤ now
      → IsTerminated id
  late-IsTerminated id limit started p q h =
      watch_job-late id
        (past_deadline_lem limit started p q ∙ ap (λ b. (ok b, (clock env w).1)) (lt→ltb _ _ h))

  -- For a running container, a job that started and a deadline whose nanoseconds fit in 64 bits: once the
  -- clock is past the start plus the deadline, the container is stopped and removed, the job is written
  -- as failed and no delay is asked for; until then it is only written as running, if it was not, and
  -- looked at again after five seconds.
  pub watch_job-deadline :
      (id : String) (limit started : ℤ)
      → job.spec.active_deadline_seconds ≡ some limit
      → job.status.start_time ≡ some started
      → InSeconds limit
      → (started +ℤ limit *ℤ second <ℤ now → IsTerminated id)
        × (now ≤ℤ started +ℤ limit *ℤ second → IsWatched id)
  watch_job-deadline id limit started p q fits =
      let exact = seconds_exact_long limit fits in
      (
        (λ late. late-IsTerminated id limit started p q (rw exact late)),
        λ early. watch_job-early id (
            past_deadline_lem limit started p q
            ∙ ap (λ b. (ok b, (clock env w).1)) (le→ltb _ _ (rw exact early))),
      )

  -- A deadline of 9223372037 to 18446744073 seconds wraps: the job is terminated at the first look, as
  -- soon as the clock has reached its start.
  pub watch_job-deadline_wraps :
      (id : String) (n : ℕ) (started : ℤ)
      → job.spec.active_deadline_seconds ≡ some (pos n)
      → job.status.start_time ≡ some started
      → 9223372037 ≤ n
      → n ≤ 18446744073
      → started ≤ℤ now
      → IsTerminated id
  watch_job-deadline_wraps id n started p q lo hi begun =
      late-IsTerminated id (pos n) started p q (omega (int_laws, seconds_wraps n lo hi))
