-- ===== src/Tests/Job.antt =====
-- The theorems of the job controller at concrete jobs: starts, creation, deletion and clients.
use k8s_docker_operator.Prelude.{
  String, ◌+◌, ◌≤◌, ◌≡◌, refl, true, false, List, [], ◌∷◌, some, none, arith, eq_iff, All,
}
use k8s_docker_operator.Prelude.Int.{pos, int32}
use k8s_docker_operator.Prelude.Text.{◌<>◌, find_key}
use k8s_docker_operator.Exec.{ok, err, wrap, ◌>>=◌, given}
use k8s_docker_operator.Api.Job.{DockerJob, succeeded, failed, running, is_finished}
use k8s_docker_operator.Outside.Docker.{ContainerState}
use k8s_docker_operator.JobController.Failing.{HasExited, last_written, last_written-failed}
use k8s_docker_operator.Outside.Calls.{Env, World, Effect, ask, act, cache_load, container_started}
use k8s_docker_operator.Common.Secrets.{upload_secret_to_container}
use k8s_docker_operator.JobController.Client.{
  fallback, get_docker_client, local_client, default_client, resolve_host,
}
use k8s_docker_operator.JobController.Create.{
  env_value, secret_ref, resolve_env, pull_auth, upload_all, prepare_container,
  create_and_start_container,
}
use k8s_docker_operator.JobController.Sync.{sync_job}
use k8s_docker_operator.JobController.Reconcile.{advance, reconcile_job}
use k8s_docker_operator.JobController.Runs.{runs, written}
use k8s_docker_operator.JobController.RunBound.{begun, pass, runs_bounded, sync_job-missing}
use k8s_docker_operator.JobController.Creation.{Prepared, create_and_start_container-order}
use k8s_docker_operator.JobController.Finished.{IsQuiet, reconcile_job-IsQuiet}
use k8s_docker_operator.JobController.Deletion.{Finalized, reconcile_job-deleted}
use k8s_docker_operator.JobController.Cache.{fallback-system_tls}
use k8s_docker_operator.Tests.Fixtures.{
  missing, container_in, sample_job, tls_host, env_with, start_world,
}

abbrev gone_env : Env (Unit {0}) (Unit {0})
gone_env = env_with (err missing) true

abbrev first_trace : List Effect
first_trace = (advance gone_env "client" sample_job start_world).1.trace

runs_bounded_example :
    (0 + runs first_trace ≤ 2 + 1)
    × (is_finished (written sample_job first_trace).status.phase ≡ false
        → (written sample_job first_trace).status.attempts ≡ pos (0 + runs first_trace))
runs_bounded_example =
    runs_bounded gone_env "client" {first = sample_job} 2 refl refl (omega arith)
      (pass start_world begun refl (λ _ _ _. refl))

abbrev state : ContainerState
state = record { running = false; status = "exited"; exit_code = pos 3; health = none }

abbrev exited_env : Env (Unit {0}) (Unit {0})
exited_env = env_with (ok (container_in state)) true

abbrev four_passes : List (World (Unit {0}))
four_passes = start_world ∷ start_world ∷ start_world ∷ start_world ∷ []

last_written-failed_example :
    (last_written exited_env "client" sample_job four_passes).status.phase ≡ failed
unfolding int32
last_written-failed_example =
    let out : HasExited exited_env "client" "job-j" start_world =
      (refl, container_in state, state, refl, refl, refl, refl, refl) in
    last_written-failed exited_env "client" four_passes sample_job 2 0 refl (omega arith) refl
      (omega arith) refl (out, (out, (out, (out, tt)))) (omega arith)

sync_job-missing_example :
    (runs (sync_job gone_env "client" sample_job start_world).1.trace ≡ 1)
    × ((written sample_job (sync_job gone_env "client" sample_job start_world).1.trace).status.phase
        ≡ running)
unfolding create_and_start_container prepare_container pull_auth resolve_env env_value secret_ref
    upload_all upload_secret_to_container find_key given act ask ◌>>=◌
sync_job-missing_example =
    sync_job-missing gone_env "client" sample_job start_world missing refl refl refl

abbrev finished_job : DockerJob
finished_job = record sample_job { status = record sample_job.status { phase = succeeded } }

reconcile_job-IsQuiet_example :
    All IsQuiet (reconcile_job gone_env finished_job start_world).1.trace
reconcile_job-IsQuiet_example =
    reconcile_job-IsQuiet gone_env (λ j w j' h. cc) finished_job start_world refl refl

abbrev deleted_job : DockerJob
deleted_job = record sample_job {
  meta = record sample_job.meta { deletion_timestamp = some (pos 90000000000) };
}

abbrev local_env : Env (Unit {0}) (Unit {0})
local_env = record gone_env { hosts = record gone_env.hosts { get = λ _ u. (err missing, u) } }

reconcile_job-deleted_example :
    Finalized local_env deleted_job start_world "local" start_world
      (reconcile_job local_env deleted_job start_world)
unfolding get_docker_client cache_load find_key resolve_host fallback default_client local_client
    given ask ◌>>=◌
reconcile_job-deleted_example =
    reconcile_job-deleted local_env deleted_job start_world "local" start_world (pos 90000000000)
      refl refl

fallback-system_tls_example :
    (fallback gone_env "default" "default/remote" "remote" missing start_world).0
    ≡ err (wrap ("failed to get TLS Secret '" <> "certs" <> "': ") missing)
fallback-system_tls_example =
    fallback-system_tls gone_env "default" "default/remote" "remote" missing missing tls_host
      start_world (ground (arith, eq_iff "default" "system")) refl
      (ground (arith, eq_iff "certs" "")) refl

create_and_start_container-order_example :
    (id : String) × (earlier : List Effect) × Prepared gone_env "client" sample_job start_world id
      earlier
    × ((create_and_start_container gone_env "client" sample_job start_world).1.trace
        ≡ container_started "client" id ∷ earlier)
unfolding create_and_start_container prepare_container pull_auth resolve_env env_value secret_ref
    upload_all upload_secret_to_container find_key given act ask ◌>>=◌
create_and_start_container-order_example =
    create_and_start_container-order gone_env "client" sample_job start_world refl
