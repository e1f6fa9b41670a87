-- ===== src/JobController/TimeToLive.antt =====
-- When `handleTTLCleanup` removes the container of a finished job.
use k8s_docker_operator.Prelude.{◌≡◌, refl, some, ◌∙◌, ◌∷◌, ap, le→ltb, lt→ltb, true, false}
use k8s_docker_operator.Prelude.Int.{
  ℤ, ◌+ℤ◌, ◌-ℤ◌, ◌*ℤ◌, ◌≤ℤ◌, ◌<ℤ◌, ltb_ℤ, int64, int64_id, InInt32, InInt64, int_laws,
}
use k8s_docker_operator.Exec.{ok, ◌>>=◌, given}
use k8s_docker_operator.Api.Job.{DockerJob}
use k8s_docker_operator.Outside.Docker.{Client}
use k8s_docker_operator.Outside.Calls.{Env, World, container_removed, act}
use k8s_docker_operator.Outside.Time.{clock, second, seconds, sub_time}
use k8s_docker_operator.Outside.Durations.{second_parts, seconds_exact, sub_time_exact}
use k8s_docker_operator.JobController.Create.{container_name}
use k8s_docker_operator.Outside.Requeue.{again, done}
use k8s_docker_operator.JobController.Sync.{handle_ttl_cleanup, expire, remove_container}

module _ {W F : Type 0} (env : Env W F) (cli : Client) (job : DockerJob) (w : World W) where
  abbrev now : ℤ
  now = (env.now w.outside).0

  -- The wait that is asked for, without its wrap.
  wait_exact :
      (ttl completed t : ℤ)
      → InInt32 ttl
      → completed ≤ℤ t
      → InInt64 (t -ℤ completed)
      → t -ℤ completed <ℤ ttl *ℤ second
      → int64 (ttl *ℤ second -ℤ (t -ℤ completed)) ≡ completed +ℤ ttl *ℤ second -ℤ t
  wait_exact ttl completed t a b c d =
      int64_id (ttl *ℤ second -ℤ (t -ℤ completed)) (omega (int_laws, second_parts ttl))
      ∙ omega int_laws

  expire_waits :
      (ttl completed : ℤ)
      → ltb_ℤ (sub_time now completed) ttl ≡ true
      → ((expire env cli job ttl completed w).0
          ≡ ok (again (int64 (ttl -ℤ sub_time now completed))))
        × ((expire env cli job ttl completed w).1.trace ≡ w.trace)
  unfolding expire remove_container ◌>>=◌ clock act
  expire_waits ttl completed h = rw h (refl, refl)

  expire_removes :
      (ttl completed : ℤ)
      → ltb_ℤ (sub_time now completed) ttl ≡ false
      → ((expire env cli job ttl completed w).0 ≡ ok done)
        × ((expire env cli job ttl completed w).1.trace
            ≡ container_removed cli (container_name job) ∷ w.trace)
  unfolding expire remove_container ◌>>=◌ clock act
  expire_removes ttl completed h = rw h (refl, refl)

  handle_ttl_cleanup-expire :
      (ttl completed : ℤ)
      → job.spec.ttl_seconds_after_finished ≡ some ttl
      → job.status.completion_time ≡ some completed
      → handle_ttl_cleanup env cli job w ≡ expire env cli job (seconds ttl) completed w
  unfolding handle_ttl_cleanup given
  handle_ttl_cleanup-expire ttl completed p q = simp (p, q)

  -- With a time to live and a completion time that the clock has passed by less than 292 years: once
  -- the completion time plus the time to live is reached, the container is removed and no delay is
  -- asked for; before that nothing is done, and the delay ends at exactly that moment.
  pub handle_ttl_cleanup_exact :
      (ttl completed : ℤ)
      → job.spec.ttl_seconds_after_finished ≡ some ttl
      → job.status.completion_time ≡ some completed
      → InInt32 ttl
      → completed ≤ℤ now
      → InInt64 (now -ℤ completed)
      → (completed +ℤ ttl *ℤ second ≤ℤ now
          → ((handle_ttl_cleanup env cli job w).0 ≡ ok done)
            × ((handle_ttl_cleanup env cli job w).1.trace
                ≡ container_removed cli (container_name job) ∷ w.trace))
        × (now <ℤ completed +ℤ ttl *ℤ second
            → ((handle_ttl_cleanup env cli job w).0
                ≡ ok (again (completed +ℤ ttl *ℤ second -ℤ now)))
              × ((handle_ttl_cleanup env cli job w).1.trace ≡ w.trace))
  handle_ttl_cleanup_exact ttl completed has_ttl has_completion a b c =
      rw (handle_ttl_cleanup-expire ttl completed has_ttl has_completion, seconds_exact ttl a)
        (
          λ late.
              expire_removes _ _
                (rw (sub_time_exact now completed c) (le→ltb _ _ (omega int_laws))),
          λ early.
              let waits =
                expire_waits (ttl *ℤ second) completed
                  (rw (sub_time_exact now completed c) (lt→ltb _ _ (omega int_laws))) in
              let sub = sub_time_exact now completed c in
              let wait = wait_exact ttl completed now a b c (omega int_laws) in
              (
                waits.0 ∙ ap (λ d. ok (again d)) (ap (λ d. int64 (ttl *ℤ second -ℤ d)) sub ∙ wait),
                waits.1,
              ),
        )
