-- ===== src/ServiceController/Server.antt =====
-- `reconcileTunnelServer` of internal/controller/dockerservice/reconciler.go. `sort` is `sort.Strings`.
use k8s_docker_operator.Prelude.{String, List, ◌∷◌, map, str_eq, if◌then◌else◌}
use k8s_docker_operator.Prelude.Int.{pos}
use k8s_docker_operator.Prelude.Text.{◌<>◌, show_ℤ}
use k8s_docker_operator.Exec.{Exec, pure, ◌>>=◌, ◌>>◌}
use k8s_docker_operator.Api.Meta.{Key}
use k8s_docker_operator.Api.Container.{ServicePort}
use k8s_docker_operator.Api.Service.{DockerService}
use k8s_docker_operator.Api.Cluster.{
  CorePort, CoreService, TargetsMap, CoreDeployment, OperationResult, unchanged, created, updated,
}
use k8s_docker_operator.Outside.Calls.{
  Env, World, Cluster, act, core_service_ensured, targets_ensured, core_deployment_ensured,
}
use k8s_docker_operator.ServiceController.Targets.{join_comma, trigger_tunnel_reload}
use k8s_docker_operator.ServiceController.Auth.{ensure_tunnel_auth_secret}

abbrev pub server_name : DockerService → String
server_name ds = "tunnel-" <> ds.meta.name

abbrev pub server_key : DockerService → String → Key
server_key ds name = record { namespace = ds.meta.namespace; name = name }

-- The tunnel server listens at the port itself.
abbrev pub server_port : ServicePort → CorePort
server_port p = record { name = p.name; port = p.port; target_port = p.port }

abbrev pub server_service : DockerService → CoreService
server_service ds = record {
  key = server_key ds (server_name ds);
  owner = ds.meta;
  app = server_name ds;
  ports =
      record { name = "ws"; port = pos 8081; target_port = pos 8081 }
      ∷ map server_port ds.spec.ports;
}

abbrev pub targets_name : DockerService → String
targets_name ds = server_name ds <> "-targets"

abbrev pub targets_map_of : DockerService → String → TargetsMap
targets_map_of ds targets = record {
  key = server_key ds (targets_name ds);
  owner = ds.meta;
  targets = targets;
}

abbrev pub listen_arg : ServicePort → String
listen_arg p = "-listen-addr=:" <> show_ℤ p.port

abbrev pub server_args : DockerService → String → List String
server_args ds token =
    "tunnel"
    ∷ "-mode=server"
    ∷ "-ws-addr=:8081"
    ∷ ("-auth-token=" <> token)
    ∷ "-targets-file=/etc/tunnel/targets"
    ∷ map listen_arg ds.spec.ports

abbrev pub image_or_default : String → String
image_or_default image = if str_eq image "" then "hvtung/k8s-docker-operator:latest" else image

abbrev pub server_deployment : DockerService → String → String → CoreDeployment
server_deployment ds image token = record {
  key = server_key ds (server_name ds);
  owner = ds.meta;
  app = server_name ds;
  replicas = pos 1;
  image = image_or_default image;
  args = server_args ds token;
  targets_map = targets_name ds;
}

abbrev pub server_url : DockerService → String
server_url ds = "ws://" <> server_name ds <> "." <> ds.meta.namespace <> ".svc:8081/ws"

module _ {W F : Type 0} (env : Env W F) (cluster : Cluster W)
    (sort : List String → List String) where
  -- The push of the targets, if the map was changed.
  unfoldable pub push_targets : DockerService → String → OperationResult → Exec (World W) (Unit {0})
  push_targets ds targets updated =
      trigger_tunnel_reload cluster ds.meta.namespace (server_name ds) targets
  push_targets ds targets created = pure tt
  push_targets ds targets unchanged = pure tt

  -- The map of the targets, and the push.
  unfoldable pub ensure_targets : DockerService → String → Exec (World W) (Unit {0})
  ensure_targets ds targets =
      act (targets_ensured (targets_map_of ds targets))
        (cluster.ensure_targets (targets_map_of ds targets))
      >>= push_targets ds targets

  unfoldable pub reconcile_tunnel_server : DockerService → List String → Exec (World W) String
  reconcile_tunnel_server ds addresses = do
    act (core_service_ensured (server_service ds)) (cluster.ensure_service (server_service ds))
    token ← ensure_tunnel_auth_secret env cluster ds
    ensure_targets ds (join_comma (sort addresses))
    let deployment = server_deployment ds cluster.operator_image token
    act (core_deployment_ensured deployment) (cluster.ensure_deployment deployment)
    pure (server_url ds)
