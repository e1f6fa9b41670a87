-- ===== src/Tests/Pass.antt =====
-- The theorems of the container controller's passes at a small container.
use k8s_docker_operator.Prelude.{inr, ◌≡◌, refl, ap, sym, subst, true, false, [], ◌∷◌, some, String}
use k8s_docker_operator.Prelude.Int.{pos, ◌-ℤ◌}
use k8s_docker_operator.Prelude.Text.{split_string, find_key}
use k8s_docker_operator.Exec.{Result, ok, err, given, pure, ◌>>=◌}
use k8s_docker_operator.Outside.Time.{clock, sub_time}
use k8s_docker_operator.Api.Container.{DockerContainer}
use k8s_docker_operator.Outside.Docker.{Inspected, Listed}
use k8s_docker_operator.Outside.Calls.{
  Env, World, cache_load, container_started, object_status_updated,
}
use k8s_docker_operator.ContainerController.Create.{publish_ports}
use k8s_docker_operator.ContainerController.Drift.{needs_recreate}
use k8s_docker_operator.ContainerController.Settled.{needs_recreate-IsMadeFor}
use k8s_docker_operator.ContainerController.Sync.{
  find_container, note, note_state, sync_found, sync_container,
}
use k8s_docker_operator.ContainerController.Reconcile.{get_docker_client, reconcile_container}
use k8s_docker_operator.JobController.Client
use k8s_docker_operator.ContainerController.Ports.{
  IsPublished, host_port_of, publish_ports-IsPublished,
}
use k8s_docker_operator.ContainerController.Deletion.{Deleted, reconcile_container-Deleted}
use k8s_docker_operator.ContainerController.Steady.{sync_container-settles, sync_found-unfilled}
use k8s_docker_operator.Tests.Fixtures.{
  libraries, env_with, docker_with, objects, absent, start_world, differ, meta_named, missing,
}
use k8s_docker_operator.Tests.Container.{spec, inspected, config, host_config}

abbrev listed : String → Listed
listed state = record { id = "id1"; names = "/c" ∷ []; image = "app"; state = state }

abbrev with_container : String → Env (Unit {0}) (Unit {0})
with_container state = record (env_with (ok inspected) true) {
  docker = record (docker_with (ok inspected)) { list = λ _ u. (ok (listed state ∷ []), u) };
}

abbrev sample : DockerContainer
sample = record {
  meta = meta_named "cr";
  spec = spec;
  status = record { id = "id1"; state = "created"; health = ""; ipv4 = "" };
}

made_for : needs_recreate (libraries true) (λ xs. xs) inspected spec ≡ false
unfolding given
made_for =
    needs_recreate-IsMadeFor (libraries true) (λ xs. xs) (λ p xs h. h) spec inspected config
      host_config refl refl refl (refl, inr refl, ("PATH=/bin" ∷ [], refl), refl, refl)

publish_ports-IsPublished_example :
    IsPublished (
      publish_ports
        (libraries true)
        ("81:80" ∷ "8080:80" ∷ "bad" ∷ [])
        (record { bindings = []; exposed = [] }))
    × (host_port_of "80"
          (publish_ports
            (libraries true)
            ("81:80" ∷ "8080:80" ∷ "bad" ∷ [])
            (record { bindings = []; exposed = [] })).bindings
        ≡ some "8080")
unfolding split_string given
publish_ports-IsPublished_example =
    publish_ports-IsPublished (libraries true) ("81:80" ∷ "8080:80" ∷ "bad" ∷ []) "80"

abbrev dying : DockerContainer
dying = record sample { meta = record (meta_named "cr") { deletion_timestamp = some (pos 1) } }

abbrev cached_world : World (Unit {0})
cached_world = record start_world {
  cache = ("default/default", record { client = "local"; created_at = pos 100000000000 }) ∷ [];
}

reconcile_container-Deleted_example :
    Deleted
      (env_with (err missing) true)
      "local"
      dying
      cached_world
      (reconcile_container (env_with (err missing) true) (λ xs. xs) dying cached_world)
unfolding get_docker_client Client.get_docker_client Client.refresh given pure cache_load find_key
    clock sub_time ◌-ℤ◌ ◌>>=◌
reconcile_container-Deleted_example =
    reconcile_container-Deleted (env_with (err missing) true) "local" dying (λ xs. xs) cached_world
      cached_world (pos 1) refl refl refl

sync_container-settles_example :
    ((sync_container
        (with_container "running")
        (λ xs. xs)
        "local"
        (note (listed "running") (some inspected) sample).container
        start_world).0
      ≡ ok tt)
    × ((sync_container
          (with_container "running")
          (λ xs. xs)
          "local"
          (note (listed "running") (some inspected) sample).container
          start_world).1.trace
        ≡ [])
unfolding find_container
sync_container-settles_example =
    sync_container-settles (with_container "running") (λ xs. xs) "local" (listed "running")
      inspected sample (listed "running" ∷ []) start_world refl refl refl refl made_for

-- The answer to the update of a status is the object sent.
abbrev unfilled_env : Env (Unit {0}) (Unit {0})
unfilled_env = record (with_container "created") { containers = objects (λ _. absent) }

-- A container with a Secret volume of which no status is stored yet.
abbrev unfilled : DockerContainer
unfilled = record sample {
  spec = record spec {
    secret_volumes = record { secret_name = "creds"; mount_path = "/etc/c" } ∷ [];
  };
  status = record { id = ""; state = ""; health = ""; ipv4 = "" };
}

abbrev inspected_or : Result Inspected → Inspected
inspected_or (ok i) = i
inspected_or (err e) = inspected

abbrev stored_or : Result DockerContainer → DockerContainer
stored_or (ok c) = c
stored_or (err e) = unfilled

unfilled_fits : needs_recreate (libraries true) (λ xs. xs) inspected unfilled.spec ≡ false
unfolding given
unfilled_fits =
    needs_recreate-IsMadeFor (libraries true) (λ xs. xs) (λ p xs h. h) unfilled.spec inspected
      config host_config refl refl refl (refl, inr refl, ("PATH=/bin" ∷ [], refl), refl, refl)

sync_found-unfilled_example :
    (sync_found unfilled_env (λ xs. xs) "local" unfilled (listed "created") start_world).1.trace
    ≡ container_started "local" "id1"
      ∷ object_status_updated (record unfilled {
        status = record { id = "id1"; state = "created"; health = ""; ipv4 = "" };
      })
      ∷ []
unfolding note note_state given
sync_found-unfilled_example =
    sync_found-unfilled unfilled_env (λ xs. xs) "local" (listed "created") unfilled start_world
      (differ "created" "running" refl)
      (λ i h.
        subst
          (λ r. needs_recreate (libraries true) (λ xs. xs) (inspected_or r) unfilled.spec ≡ false) h
          unfilled_fits)
      (λ u stored h. ap (λ r. (stored_or r).spec) (sym h))
