-- ===== src/Tests/JobTimes.antt =====
-- The theorems of the job controller at concrete times: deadlines and the time to live.
use k8s_docker_operator.Prelude.{◌≡◌, refl, true, [], ◌∷◌, some, arith}
use k8s_docker_operator.Prelude.Int.{pos, ◌+ℤ◌, ◌-ℤ◌, ◌*ℤ◌, ◌≤ℤ◌, ◌<ℤ◌}
use k8s_docker_operator.Exec.{ok, err}
use k8s_docker_operator.Api.Job.{DockerJob}
use k8s_docker_operator.Outside.Calls.{Env, container_removed}
use k8s_docker_operator.Outside.Time.{second}
use k8s_docker_operator.JobController.Create.{container_name}
use k8s_docker_operator.Outside.Requeue.{again, done}
use k8s_docker_operator.JobController.Sync.{handle_ttl_cleanup}
use k8s_docker_operator.JobController.Deadline.{
  IsTerminated, IsWatched, watch_job-deadline, watch_job-deadline_wraps,
}
use k8s_docker_operator.JobController.TimeToLive.{handle_ttl_cleanup_exact}
use k8s_docker_operator.Tests.Fixtures.{missing, sample_job, env_with, start_world}

abbrev gone_env : Env (Unit {0}) (Unit {0})
gone_env = env_with (err missing) true

abbrev ended_job : DockerJob
ended_job = record sample_job {
  status = record sample_job.status { completion_time = some (pos 60000000000) };
}

handle_ttl_cleanup_exact_example :
    (pos 60000000000 +ℤ pos 30 *ℤ second ≤ℤ pos 100000000000
      → ((handle_ttl_cleanup gone_env "client" ended_job start_world).0 ≡ ok done)
        × ((handle_ttl_cleanup gone_env "client" ended_job start_world).1.trace
            ≡ container_removed "client" (container_name ended_job) ∷ []))
    × (pos 100000000000 <ℤ pos 60000000000 +ℤ pos 30 *ℤ second
        → ((handle_ttl_cleanup gone_env "client" ended_job start_world).0
            ≡ ok (again (pos 60000000000 +ℤ pos 30 *ℤ second -ℤ pos 100000000000)))
          × ((handle_ttl_cleanup gone_env "client" ended_job start_world).1.trace ≡ []))
unfolding ◌-ℤ◌
handle_ttl_cleanup_exact_example =
    handle_ttl_cleanup_exact gone_env "client" ended_job start_world (pos 30) (pos 60000000000) refl
      refl (omega arith, omega arith) (omega arith) (omega arith, omega arith)

abbrev running_job : DockerJob
running_job = record sample_job {
  status = record sample_job.status { start_time = some (pos 20000000000) };
}

watch_job-deadline_example :
    (pos 20000000000 +ℤ pos 60 *ℤ second <ℤ pos 100000000000
      → IsTerminated gone_env "client" running_job start_world "id1")
    × (pos 100000000000 ≤ℤ pos 20000000000 +ℤ pos 60 *ℤ second
        → IsWatched gone_env "client" running_job start_world "id1")
watch_job-deadline_example =
    watch_job-deadline gone_env "client" running_job start_world "id1" (pos 60) (pos 20000000000)
      refl refl (omega arith, omega arith)

abbrev long_job : DockerJob
long_job = record running_job {
  spec = record running_job.spec { active_deadline_seconds = some (pos 9223372037) };
}

watch_job-deadline_wraps_example : IsTerminated gone_env "client" long_job start_world "id1"
watch_job-deadline_wraps_example =
    watch_job-deadline_wraps gone_env "client" long_job start_world "id1" 9223372037
      (pos 20000000000) refl refl (omega arith) (omega arith) (omega arith)
