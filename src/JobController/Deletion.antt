-- ===== src/JobController/Deletion.antt =====
-- What the deletion of a job does.
use k8s_docker_operator.Prelude.{◌≡◌, refl, ◌∷◌, true, false, some, arith}
use k8s_docker_operator.Prelude.Int.{ℤ}
use k8s_docker_operator.Exec.{Error, Result, ok, err, given, ◌>>=◌}
use k8s_docker_operator.Api.Job.{DockerJob}
use k8s_docker_operator.Outside.Docker.{Client}
use k8s_docker_operator.Outside.Calls.{Env, World, act, job_updated, container_removed}
use k8s_docker_operator.JobController.Client.{get_docker_client}
use k8s_docker_operator.JobController.Create.{container_name}
use k8s_docker_operator.Outside.Requeue.{Outcome, done}
use k8s_docker_operator.JobController.Sync.{remove_container}
use k8s_docker_operator.JobController.Reconcile.{finalizer_name, finalize, reconcile_job}

module _ {W F : Type 0} (env : Env W F) (job : DockerJob) (w : World W) where
  abbrev pub released : DockerJob
  released = record job { meta = env.libs.remove_finalizer job.meta finalizer_name }

  reconcile_job-finalize :
      (cli : Client) (v : World W) (deleted_at : ℤ)
      → job.meta.deletion_timestamp ≡ some deleted_at
      → get_docker_client env job.meta.namespace job.spec.docker_host_ref w ≡ (ok cli, v)
      → reconcile_job env job w ≡ finalize env cli job v
  unfolding reconcile_job given ◌>>=◌
  reconcile_job-finalize cli v deleted_at gone client = simp (gone, client)

  abbrev pub Finalized : Client → World W → Result Outcome × World W → Type 0
  Finalized cli v r =
      (env.libs.contains_finalizer job.meta finalizer_name ≡ true
        → (r.1.trace ≡ job_updated released ∷ container_removed cli (container_name job) ∷ v.trace)
          × ((e : Error)
              → r.0 ≡ err e
              → (env.jobs.update released
                  (env.docker.remove cli (container_name job) v.outside).1).0
                ≡ err e))
      × (env.libs.contains_finalizer job.meta finalizer_name ≡ false → r ≡ (ok done, v))

  finalize-Finalized : (cli : Client) (v : World W) → Finalized cli v (finalize env cli job v)
  unfolding finalize remove_container act ◌>>=◌
  finalize-Finalized cli v = (λ has. rw has (ground arith), λ has. rw has refl)

  -- A job that is being deleted, has the controller's finalizer and resolves its client: its container is
  -- removed by name and then its finalizer is taken off, whether or not the removal succeeds; no other
  -- call is made, and an error comes only from the update of the job. Without the finalizer nothing is
  -- done.
  pub reconcile_job-deleted :
      (cli : Client) (v : World W) (deleted_at : ℤ)
      → job.meta.deletion_timestamp ≡ some deleted_at
      → get_docker_client env job.meta.namespace job.spec.docker_host_ref w ≡ (ok cli, v)
      → Finalized cli v (reconcile_job env job w)
  reconcile_job-deleted cli v deleted_at gone client =
      rw (reconcile_job-finalize cli v deleted_at gone client) (finalize-Finalized cli v)
