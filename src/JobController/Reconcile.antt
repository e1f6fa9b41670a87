-- ===== src/JobController/Reconcile.antt =====
-- `Reconcile` of dockerjob/reconciler.go.
use k8s_docker_operator.Prelude.{String, if◌then◌else◌}
use k8s_docker_operator.Exec.{Exec, pure, raise, attempt, handle, given, ◌>>=◌, ◌>>◌}
use k8s_docker_operator.Api.Meta.{Key}
use k8s_docker_operator.Api.Job.{DockerJob, is_finished}
use k8s_docker_operator.Outside.Docker.{Client}
use k8s_docker_operator.Outside.Calls.{Env, World, ask, act, job_updated}
use k8s_docker_operator.JobController.Client.{get_docker_client}
use k8s_docker_operator.JobController.Create.{container_name}
use k8s_docker_operator.Outside.Requeue.{Outcome, done}
use k8s_docker_operator.JobController.Sync.{remove_container, handle_ttl_cleanup, sync_job}

abbrev pub finalizer_name : String
finalizer_name = "dockerjob.kdop.io.vn/finalizer"

module _ {W F : Type 0} (env : Env W F) where
  abbrev pub update_job : DockerJob → Exec (World W) DockerJob
  update_job job = act (job_updated job) (env.jobs.update job)

  unfoldable pub ensure_finalizer : DockerJob → Exec (World W) DockerJob
  ensure_finalizer job =
      if env.libs.contains_finalizer job.meta finalizer_name
      then pure job
      else update_job (record job { meta = env.libs.add_finalizer job.meta finalizer_name })

  -- The job is being deleted.
  unfoldable pub finalize : Client → DockerJob → Exec (World W) Outcome
  finalize cli job =
      let clean = do
        attempt (remove_container env cli (container_name job))
        update_job (record job { meta = env.libs.remove_finalizer job.meta finalizer_name })
        pure done
      in if env.libs.contains_finalizer job.meta finalizer_name then clean else pure done

  unfoldable pub advance : Client → DockerJob → Exec (World W) Outcome
  advance cli job =
      if is_finished job.status.phase then handle_ttl_cleanup env cli job else sync_job env cli job

  unfoldable pub reconcile_job : DockerJob → Exec (World W) Outcome
  reconcile_job job = do
    cli ← get_docker_client env job.meta.namespace job.spec.docker_host_ref
    given job.meta.deletion_timestamp (λ _. finalize cli job) (ensure_finalizer job >>= advance cli)

  unfoldable pub reconcile : Key → Exec (World W) Outcome
  reconcile key =
      handle (ask (env.jobs.get key)) reconcile_job
        (λ e. if e.not_found then pure done else raise e)
