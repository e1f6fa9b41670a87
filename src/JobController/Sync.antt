-- ===== src/JobController/Sync.antt =====
-- `syncJob`, `handleTTLCleanup` and `setStatus` of dockerjob/reconciler.go. The job that the Go code
-- changes through its pointer is passed along; a status update that succeeds brings the server's copy.
use k8s_docker_operator.Prelude.{String, Option, none, some, Bool, false, str_eq, if◌then◌else◌}
use k8s_docker_operator.Prelude.Int.{ℤ, pos, ◌+ℤ◌, ◌-ℤ◌, int32, int64, ltb_ℤ, leb_ℤ, eqb_ℤ}
use k8s_docker_operator.Prelude.Text.{◌<>◌, show_ℤ}
use k8s_docker_operator.Exec.{
  Error, Exec, Result, ok, err, pure, raise, attempt, handle, given, ◌>>=◌, ◌>>◌,
}
use k8s_docker_operator.Api.Job.{
  DockerJob, DockerJobPhase, running, succeeded, failed, is_running, is_finished,
}
use k8s_docker_operator.Outside.Docker.{Client, ContainerState}
use k8s_docker_operator.Outside.Calls.{
  Env, World, ask, act, job_status_updated, container_stopped, container_removed,
}
use k8s_docker_operator.Outside.Requeue.{Outcome, done, again}
use k8s_docker_operator.Outside.Time.{clock, sub_time, seconds}
use k8s_docker_operator.JobController.Create.{container_name, create_and_start_container}

-- 5 * time.Second
abbrev pub poll_delay : ℤ
poll_delay = pos 5000000000

-- The steps that change `job.Status`, without the update of the server.
abbrev pub mark_started : ℤ → DockerJob → DockerJob
mark_started now job = record job {
  status = record job.status {
    phase = running;
    start_time = some now;
    attempts = int32 (job.status.attempts +ℤ pos 1);
    message = "Container started";
  };
}

abbrev pub mark_running : String → DockerJob → DockerJob
mark_running id job = record job {
  status = record job.status { phase = running; container_id = id; message = "Container running" };
}

abbrev pub mark_exited : String → ℤ → ℤ → DockerJob → DockerJob
mark_exited id exit_code now job = record job {
  status = record job.status {
    container_id = id;
    exit_code = some exit_code;
    completion_time = some now;
  };
}

abbrev pub mark_succeeded : DockerJob → DockerJob
mark_succeeded job = record job {
  status = record job.status { phase = succeeded; message = "Job completed successfully" };
}

unfoldable pub retry_message : DockerJob → ℤ → String
retry_message job attempts =
    "Retrying (attempt "
    <> show_ℤ attempts
    <> "/"
    <> show_ℤ (int32 (job.spec.backoff_limit +ℤ pos 1))
    <> ")"

abbrev pub mark_retried : DockerJob → DockerJob
mark_retried job = record job {
  status = record job.status {
    phase = running;
    attempts = int32 (job.status.attempts +ℤ pos 1);
    message = retry_message job (int32 (job.status.attempts +ℤ pos 1));
    exit_code = none;
    completion_time = none;
  };
}

unfoldable pub failure_message : ℤ → ℤ → String
failure_message exit_code attempts =
    "Job failed with exit code "
    <> show_ℤ exit_code
    <> " after "
    <> show_ℤ attempts
    <> " attempt(s)"

abbrev pub mark_failed : ℤ → DockerJob → DockerJob
mark_failed exit_code job = record job {
  status = record job.status {
    phase = failed;
    message = failure_message exit_code job.status.attempts;
  };
}

-- The fields that `setStatus` writes at a time `now`.
abbrev pub with_status : DockerJobPhase → Option ℤ → String → ℤ → DockerJob → DockerJob
with_status phase exit_code message now job = record job {
  status = record job.status {
    phase = phase;
    message = message;
    exit_code = elim exit_code [ none ↦ job.status.exit_code | some code ↦ some code ];
    completion_time = if is_finished phase then some now else job.status.completion_time;
  };
}

-- The copy that is held after an update: the server's, if there was no error.
abbrev pub keep : DockerJob → Result DockerJob → DockerJob
keep job (ok stored) = stored
keep job (err e) = job

module _ {W F : Type 0} (env : Env W F) where
  -- `_ = r.Status().Update(ctx, job)`
  unfoldable pub update_status : DockerJob → Exec (World W) DockerJob
  update_status job w =
      let (r, w') = act (job_status_updated job) (env.jobs.update_status job) w in
      (ok (keep job r), w')

  unfoldable pub set_status :
      DockerJob → DockerJobPhase → Option ℤ → String → Exec (World W) DockerJob
  set_status job phase exit_code message = do
    now ← clock env
    update_status (with_status phase exit_code message now job)

  unfoldable pub remove_container : Client → String → Exec (World W) (Unit {0})
  remove_container cli name = act (container_removed cli name) (env.docker.remove cli name)

  unfoldable pub expire : Client → DockerJob → ℤ → ℤ → Exec (World W) Outcome
  expire cli job ttl completed = do
    now ← clock env
    let elapsed = sub_time now completed
    let wait = again (int64 (ttl -ℤ elapsed))
    let clean = attempt (remove_container cli (container_name job)) >> pure done
    if ltb_ℤ elapsed ttl then pure wait else clean

  unfoldable pub handle_ttl_cleanup : Client → DockerJob → Exec (World W) Outcome
  handle_ttl_cleanup cli job =
      given job.spec.ttl_seconds_after_finished
        (λ ttl. given job.status.completion_time (expire cli job (seconds ttl)) (pure done))
        (pure done)

  unfoldable pub started : DockerJob → Exec (World W) Outcome
  started job = do now ← clock env; update_status (mark_started now job); pure (again poll_delay)

  unfoldable pub start_failed : DockerJob → Error → Exec (World W) Outcome
  start_failed job e =
      set_status job failed none ("Failed to create container: " <> e.message) >> raise e

  -- The container is missing.
  unfoldable pub start_job : Client → DockerJob → Exec (World W) Outcome
  start_job cli job =
      handle (create_and_start_container env cli job) (λ _. started job) (start_failed job)

  -- Whether `time.Now()` is past the deadline, for a job that has one and has started.
  unfoldable pub past_deadline : DockerJob → Exec (World W) Bool
  past_deadline job =
      let test =
        λ (limit started : ℤ). do now ← clock env; pure (ltb_ℤ (started +ℤ seconds limit) now)
      in given job.spec.active_deadline_seconds
        (λ limit. given job.status.start_time (test limit) (pure false)) (pure false)

  unfoldable pub terminate : Client → DockerJob → String → Exec (World W) Outcome
  terminate cli job id = do
    attempt (act (container_stopped cli id) (env.docker.stop cli id))
    attempt (remove_container cli id)
    set_status job failed none "Job exceeded ActiveDeadlineSeconds"
    pure done

  unfoldable pub watch_on : Client → DockerJob → String → Bool → Exec (World W) Outcome
  watch_on cli job id late =
      let note = update_status (mark_running id job) >> pure (again poll_delay) in
      let on_time = if is_running job.status.phase then pure (again poll_delay) else note in
      if late then terminate cli job id else on_time

  -- The container is running.
  unfoldable pub watch_job : Client → DockerJob → String → Exec (World W) Outcome
  watch_job cli job id = past_deadline job >>= watch_on cli job id

  unfoldable pub retried : DockerJob → Exec (World W) Outcome
  retried job = update_status (mark_retried job) >> pure (again poll_delay)

  unfoldable pub retry_failed : DockerJob → ℤ → Error → Exec (World W) Outcome
  retry_failed job exit_code e =
      set_status job failed (some exit_code) ("Retry failed: " <> e.message) >> raise e

  -- A non-zero exit with a retry left. `job` has the exit code and the completion time.
  unfoldable pub retry_job : Client → DockerJob → String → ℤ → Exec (World W) Outcome
  retry_job cli job id exit_code =
      attempt (remove_container cli id)
      >> handle (create_and_start_container env cli job) (λ _. retried job)
          (retry_failed job exit_code)

  unfoldable pub finish_job : Client → DockerJob → Exec (World W) Outcome
  finish_job cli job = update_status job >>= λ stored. handle_ttl_cleanup cli stored

  -- `job` has the exit code and the completion time.
  unfoldable pub conclude : Client → DockerJob → String → ℤ → Exec (World W) Outcome
  conclude cli job id exit_code =
      if eqb_ℤ exit_code (pos 0)
      then finish_job cli (mark_succeeded job)
      else if leb_ℤ job.status.attempts job.spec.backoff_limit
      then retry_job cli job id exit_code
      else finish_job cli (mark_failed exit_code job)

  unfoldable pub exited_job : Client → DockerJob → String → ℤ → Exec (World W) Outcome
  exited_job cli job id code = do
    now ← clock env
    let exit_code = int32 code
    conclude cli (mark_exited id exit_code now job) id exit_code

  unfoldable pub by_state : Client → DockerJob → String → ContainerState → Exec (World W) Outcome
  by_state cli job id state =
      if state.running
      then watch_job cli job id
      else if str_eq state.status "exited"
      then exited_job cli job id state.exit_code
      else pure (again poll_delay)

  unfoldable pub sync_job : Client → DockerJob → Exec (World W) Outcome
  sync_job cli job =
      handle (ask (env.docker.inspect cli (container_name job)))
        (λ container.
          given container.state (by_state cli job container.id) (pure (again poll_delay)))
        (λ e. if e.not_found then start_job cli job else raise e)
