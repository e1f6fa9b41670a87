-- ===== src/JobController/Finished.antt =====
-- A job that has succeeded or failed is not run again, and its status is left as it is.
use k8s_docker_operator.Prelude.{◌≡◌, true, String, All, [], ap, ◌∙◌, arith}
use k8s_docker_operator.Prelude.Int.{ℤ}
use k8s_docker_operator.Exec.{Error, ok, pure}
use k8s_docker_operator.Exec.Keeps.{Keeps, Keeps-bind_result, Keeps-bind, Keeps-given}
use k8s_docker_operator.Api.Job.{DockerJob, is_finished}
use k8s_docker_operator.Api.Host.{DockerHost}
use k8s_docker_operator.Outside.Docker.{Client, ClientOpts}
use k8s_docker_operator.Outside.Calls.{
  Env, World, CachedClient, Effect, image_pulled, container_created, container_started,
  job_status_updated, act,
}
use k8s_docker_operator.Outside.Trace.{Traced, traced_rules}
use k8s_docker_operator.JobController.Client.{
  get_docker_client, refresh, resolve_host, fallback, default_client, local_client, connect,
  host_tls, open_client,
}
use k8s_docker_operator.JobController.Sync.{handle_ttl_cleanup, expire, remove_container}
use k8s_docker_operator.JobController.Reconcile.{
  finalizer_name, ensure_finalizer, finalize, advance, reconcile_job,
}

-- A call that neither runs a container nor writes a job's status.
abbrev pub IsQuiet : Effect → Type 0
IsQuiet (image_pulled _ _ _) = ⊥
IsQuiet (container_created _ _ _ _) = ⊥
IsQuiet (container_started _ _) = ⊥
IsQuiet (job_status_updated _) = ⊥
IsQuiet _ = Unit

module _ {W F : Type 0} (env : Env W F) where
  -- The answer to an update of the object has the phase that was sent.
  abbrev pub KeepsPhase : Type 0
  KeepsPhase =
      (job : DockerJob) (v : W) (job' : DockerJob)
      → (env.jobs.update job v).0 ≡ ok job'
      → job'.status.phase ≡ job.status.phase

  host_tls-IsQuiet :
      (ns : String) (host : DockerHost) → Keeps (Traced IsQuiet) (host_tls env ns host)
  unfolding host_tls
  host_tls-IsQuiet ns host = search traced_rules

  open_client-IsQuiet : (opts : ClientOpts) → Keeps (Traced IsQuiet) (open_client env opts)
  unfolding open_client
  open_client-IsQuiet opts = search traced_rules

  connect-IsQuiet :
      (ns key : String) (host : DockerHost) → Keeps (Traced IsQuiet) (connect env ns key host)
  unfolding connect
  connect-IsQuiet ns key host = search (traced_rules, host_tls-IsQuiet, open_client-IsQuiet)

  local_client-IsQuiet : Keeps (Traced IsQuiet) (local_client env)
  unfolding local_client
  local_client-IsQuiet = search (traced_rules, open_client-IsQuiet)

  default_client-IsQuiet :
      (name : String) (e : Error) → Keeps (Traced IsQuiet) (default_client env name e)
  unfolding default_client
  default_client-IsQuiet name e = search (traced_rules, local_client-IsQuiet)

  resolve_host-IsQuiet :
      (ns key name : String) → Keeps (Traced IsQuiet) (resolve_host env ns key name)
  unfolding resolve_host fallback
  resolve_host-IsQuiet ns key name = search (traced_rules, connect-IsQuiet, default_client-IsQuiet)

  refresh-IsQuiet :
      (ns key name : String) (c : CachedClient) → Keeps (Traced IsQuiet) (refresh env ns key name c)
  unfolding refresh
  refresh-IsQuiet ns key name c = search (traced_rules, resolve_host-IsQuiet) depth 9

  get_docker_client-IsQuiet :
      (ns ref : String) → Keeps (Traced IsQuiet) (get_docker_client env ns ref)
  unfolding get_docker_client
  get_docker_client-IsQuiet ns ref = search (traced_rules, refresh-IsQuiet, resolve_host-IsQuiet)

  expire-IsQuiet :
      (cli : Client) (job : DockerJob) (ttl completed : ℤ)
      → Keeps (Traced IsQuiet) (expire env cli job ttl completed)
  unfolding expire remove_container
  expire-IsQuiet cli job ttl completed = search traced_rules depth 7

  handle_ttl_cleanup-IsQuiet :
      (cli : Client) (job : DockerJob) → Keeps (Traced IsQuiet) (handle_ttl_cleanup env cli job)
  unfolding handle_ttl_cleanup
  handle_ttl_cleanup-IsQuiet cli job = search (traced_rules, expire-IsQuiet)

  finalize-IsQuiet :
      (cli : Client) (job : DockerJob) → Keeps (Traced IsQuiet) (finalize env cli job)
  unfolding finalize remove_container
  finalize-IsQuiet cli job = search traced_rules depth 7

  ensure_finalizer-IsQuiet : (job : DockerJob) → Keeps (Traced IsQuiet) (ensure_finalizer env job)
  unfolding ensure_finalizer
  ensure_finalizer-IsQuiet job = search traced_rules

  ensure_finalizer-phase :
      KeepsPhase
      → (job job' : DockerJob) (w : World W) → (ensure_finalizer env job w).0 ≡ ok job'
      → job'.status.phase ≡ job.status.phase
  unfolding ensure_finalizer pure act
  ensure_finalizer-phase law job job' w h = ground (
    arith,
    law (record job { meta = env.libs.add_finalizer job.meta finalizer_name }) w.outside job',
  )

  advance-IsQuiet :
      (cli : Client) (job : DockerJob)
      → is_finished job.status.phase ≡ true
      → Keeps (Traced IsQuiet) (advance env cli job)
  unfolding advance
  advance-IsQuiet cli job h = rw h (handle_ttl_cleanup-IsQuiet cli job)

  -- When the API's answer to an update keeps the phase, the reconciliation of a job that has succeeded
  -- or failed, starting with no calls noted, makes no call that pulls an image, creates or starts a
  -- container, or writes a status.
  pub reconcile_job-IsQuiet :
      KeepsPhase
      → (job : DockerJob) (w : World W) → is_finished job.status.phase ≡ true
      → w.trace ≡ []
      → All IsQuiet (reconcile_job env job w).1.trace
  unfolding reconcile_job
  reconcile_job-IsQuiet law job w h e =
      (Keeps-bind (get_docker_client env job.meta.namespace job.spec.docker_host_ref) _
          (get_docker_client-IsQuiet job.meta.namespace job.spec.docker_host_ref)
          (λ cli.
            Keeps-given job.meta.deletion_timestamp _ _ (λ _. finalize-IsQuiet cli job)
              (Keeps-bind_result (ensure_finalizer env job) (advance env cli)
                (ensure_finalizer-IsQuiet job)
                (λ job' s p.
                  advance-IsQuiet cli job'
                    (ap is_finished (ensure_finalizer-phase law job job' s p) ∙ h))))).at
        w (rw e tt)
