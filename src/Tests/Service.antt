-- ===== src/Tests/Service.antt =====
-- The theorems of the service controller at a small cluster.
use k8s_docker_operator.Prelude.{◌≡◌, refl, true, List, All, [], ◌∷◌, some, none}
use k8s_docker_operator.Prelude.Int.{pos}
use k8s_docker_operator.Prelude.Text.{codes, trim_space}
use k8s_docker_operator.Exec.{Error, ok, err, given, pure, lift, ◌>>=◌}
use k8s_docker_operator.Api.Meta.{Secret}
use k8s_docker_operator.Api.Container.{DockerContainer}
use k8s_docker_operator.Api.Service.{DockerService}
use k8s_docker_operator.Api.Cluster.{created}
use k8s_docker_operator.Outside.Calls.{
  Env, Cluster, World, Effect, act, secret_created, service_updated,
}
use k8s_docker_operator.ServiceController.Reconcile.{container_key, released, reconcile_service}
use k8s_docker_operator.ServiceController.Deletion.{IsCleaning, reconcile_service-deletion}
use k8s_docker_operator.ServiceController.Auth.{
  secret_key, hex_encode, random_token, create_token, ensure_tunnel_auth_secret,
}
use k8s_docker_operator.ServiceController.Tokens.{ensure-create}
use k8s_docker_operator.ServiceController.Targets.{join_comma}
use k8s_docker_operator.ServiceController.Push.{handle_reload-join, handle_reload-empty}
use k8s_docker_operator.Outside.Time.{sub_time}
use k8s_docker_operator.Prelude.Int.{◌-ℤ◌}
use k8s_docker_operator.Tunnel.Server.{Server, handle_reload, recent_push}
use k8s_docker_operator.Tests.Fixtures.{
  env_with, start_world, differ, meta_named, missing, objects, absent, answer,
}
use k8s_docker_operator.Tests.Container.{spec}
use k8s_docker_operator.Tests.Tunnel.{busy, two_targets}

abbrev sample : DockerContainer
sample = record {
  meta = meta_named "cr";
  spec = spec;
  status = record { id = "id1"; state = "running"; health = ""; ipv4 = "10.0.0.2" };
}

abbrev pub env : Env (Unit {0}) (Unit {0})
env = env_with (err missing) true

abbrev pub cluster : Cluster (Unit {0})
cluster = record {
  services = objects (λ _. absent);
  as_selector = λ s. ok s;
  matches = λ _ _. true;
  select = λ _ _. answer (sample ∷ []);
  ensure_service = λ _. answer created;
  ensure_targets = λ _. answer created;
  ensure_deployment = λ _. answer created;
  pods = λ _ _. answer [];
  control_planes = answer [];
  push_reload = λ _ _. answer tt;
  network_connect = λ _ _ _. answer tt;
  inspect_image = λ _ _. answer tt;
  rand_read = λ n. answer (0 ∷ 171 ∷ []);
  query_escape = λ s. s;
  operator_image = "";
}

abbrev pub service : DockerService
service = record {
  meta = meta_named "web";
  spec = record {
    container_ref = "cr";
    selector = none;
    ports = record { port = pos 80; target_port = pos 8080; name = "http" } ∷ [];
    network_mode = "";
  };
  status = record { phase = ""; tunnel_clients = pos 0; tunnel_server_url = ""; message = "" };
}

abbrev dying : DockerService
dying = record service { meta = record (meta_named "web") { deletion_timestamp = some (pos 1) } }

abbrev found_env : Env (Unit {0}) (Unit {0})
found_env = record env { containers = objects (λ _. answer sample) }

reconcile_service-deletion_example :
    ((c : DockerContainer)
      → (found_env.containers.get (container_key found_env cluster dying) tt).0 ≡ ok c
      → (earlier : List Effect) × ((reconcile_service found_env cluster
            (λ xs. xs)
            dying
            start_world).1.trace
          ≡ service_updated (released found_env cluster dying) ∷ earlier)
        × All (IsCleaning dying) earlier)
    × ((e : Error)
        → (found_env.containers.get (container_key found_env cluster dying) tt).0 ≡ err e
        → (reconcile_service found_env cluster (λ xs. xs) dying start_world).1.trace ≡ [])
reconcile_service-deletion_example =
    reconcile_service-deletion found_env cluster dying (λ xs. xs) start_world (pos 1) refl refl refl
      (differ "cr" "" refl) refl

ensure-create_example :
    (secret : Secret) × ((create_token env cluster service start_world).1.trace
      ≡ secret_created secret ∷ [])
    × ((later : World (Unit {0}))
        → (env.secrets.get (secret_key service) later.outside).0 ≡ ok secret
        → ((ensure_tunnel_auth_secret env cluster service later).0 ≡ ok "00ab")
          × ((ensure_tunnel_auth_secret env cluster service later).1.trace ≡ later.trace))
unfolding create_token random_token hex_encode lift act pure ◌>>=◌ given
ensure-create_example = ensure-create env cluster service start_world "00ab" refl

handle_reload-join_example :
    ((handle_reload true (codes (join_comma ("c:3" ∷ "d:4" ∷ []))) (pos 0) none busy).0 ≡ 200)
    × ((handle_reload true (codes (join_comma ("c:3" ∷ "d:4" ∷ []))) (pos 0) none busy).1.targets
        ≡ codes "c:3" ∷ codes "d:4" ∷ [])
unfolding trim_space
handle_reload-join_example =
    handle_reload-join "c:3" ("d:4" ∷ []) (pos 0) none busy
      (((refl, (refl, (refl, tt))), refl, refl), (((refl, (refl, (refl, tt))), refl, refl), tt))

abbrev pushed : Server
pushed = record busy { push_targets = two_targets; last_push_time = some (pos 0) }

handle_reload-empty_example :
    (handle_reload true (codes (join_comma [])) (pos 1) (some (codes "old:9")) pushed).1.targets
    ≡ two_targets
unfolding recent_push sub_time ◌-ℤ◌ given
handle_reload-empty_example = handle_reload-empty (pos 1) (some (codes "old:9")) pushed refl refl
