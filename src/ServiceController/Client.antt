-- ===== src/ServiceController/Client.antt =====
-- `reconcileTunnelClient` of internal/controller/dockerservice/reconciler.go. A nil pointer that is
-- dereferenced is an error here.
use k8s_docker_operator.Prelude.{
  String, Option, none, List, [], ◌∷◌, not, ◌&&◌, str_eq, if◌then◌else◌,
}
use k8s_docker_operator.Prelude.Int.{pos}
use k8s_docker_operator.Prelude.Text.{◌<>◌}
use k8s_docker_operator.Exec.{plain, Exec, pure, raise, attempt, handle, given, ◌>>=◌, ◌>>◌}
use k8s_docker_operator.Api.Container.{DockerContainer}
use k8s_docker_operator.Api.Service.{DockerService}
use k8s_docker_operator.Outside.Docker.{Client, Config, HostConfig, Inspected, Network}
use k8s_docker_operator.Outside.Calls.{
  Env, World, Cluster, ask, act, image_pulled, container_created, container_started,
  container_removed, network_connected, service_status_updated,
}
use k8s_docker_operator.JobController.Create.{no_resources}
use k8s_docker_operator.ServiceController.Auth.{ensure_tunnel_auth_secret}
use k8s_docker_operator.ServiceController.Server.{image_or_default}

abbrev pub expect : {S A : Type 0} → Option A → Exec S A
expect o = given o pure (raise (plain "nil pointer dereference"))

-- The network of the representative container: the first that the loop over the map meets.
abbrev pub first_network : List Network → String
first_network [] = ""
first_network (n ∷ ns) = n.network_id

abbrev pub tunnel_client_name : DockerService → String
tunnel_client_name ds = "tunnel-client-" <> ds.meta.name

abbrev pub client_network_mode : String → String
client_network_mode mode =
    if str_eq mode "host" then "host" else if str_eq mode "kind" then "kind" else ""

abbrev pub client_host_config : DockerService → HostConfig
client_host_config ds = record {
  restart_policy = "always";
  binds = [];
  resources = no_resources;
  port_bindings = [];
  network_mode = client_network_mode ds.spec.network_mode;
}

abbrev pub activated : DockerService → String → DockerService
activated ds url = record ds {
  status = record ds.status { phase = "Active"; tunnel_clients = pos 1; tunnel_server_url = url };
}

abbrev pub first_name : List String → String
first_name [] = "localhost"
first_name (n ∷ ns) = n

module _ {W F : Type 0} (env : Env W F) (cluster : Cluster W) where
  -- `gatewayHost`; an error of the listing leaves it.
  unfoldable pub gateway_host : DockerService → Exec (World W) String
  gateway_host ds =
      let look =
        handle (ask cluster.control_planes) (λ names. pure (first_name names))
          (λ e. pure "localhost") in
      if str_eq ds.spec.network_mode "kind" then look else pure "localhost"

  abbrev pub client_connect_url : String → String → String → String
  client_connect_url host url token =
      "ws://"
      <> host
      <> ":30000/ws?target="
      <> cluster.query_escape url
      <> "&token="
      <> cluster.query_escape token

  abbrev pub client_args : String → String → List String
  client_args connect_url token =
      "tunnel" ∷ "-mode=client" ∷ ("-server-url=" <> connect_url) ∷ ("-auth-token=" <> token) ∷ []

  abbrev pub client_config : String → String → String → Config
  client_config image connect_url token = record {
    image = image;
    cmd = client_args connect_url token;
    env = [];
    healthcheck = none;
    exposed_ports = [];
  }

  -- The pull of an image that the daemon does not have; its error is logged.
  unfoldable pub ensure_image : Client → String → Exec (World W) (Unit {0})
  ensure_image cli image =
      handle (ask (cluster.inspect_image cli image)) pure
        (λ e. attempt (act (image_pulled cli image "") (env.docker.pull cli image "")))

  unfoldable pub activate : DockerService → String → Exec (World W) (Unit {0})
  activate ds url =
      act (service_status_updated (activated ds url))
        (cluster.services.update_status (activated ds url))
      >> pure tt

  abbrev pub start_named : Client → String → Exec (World W) (Unit {0})
  start_named cli name = act (container_started cli name) (env.docker.start cli name)

  -- An error of the connection is logged.
  unfoldable pub join_network : Client → String → String → Exec (World W) (Unit {0})
  join_network cli network name =
      if not (str_eq network "") && not (str_eq network "host") && not (str_eq network "none")
      then attempt
          (act (network_connected cli network name) (cluster.network_connect cli network name))
      else pure tt

  unfoldable pub create_client :
      Client → DockerService → Config → String → String → Exec (World W) (Unit {0})
  create_client cli ds config network url = do
    let name = tunnel_client_name ds
    act (container_created cli config (client_host_config ds) name)
        (env.docker.create cli config (client_host_config ds) name)
    start_named cli name
    join_network cli network name
    activate ds url

  -- The client's container exists, with the image that is wanted.
  unfoldable pub keep_client :
      Client → DockerService → Inspected → String → Exec (World W) (Unit {0})
  keep_client cli ds existing url = do
    state ← expect existing.state
    if state.running then pure tt else start_named cli (tunnel_client_name ds)
    activate ds url

  unfoldable pub replace_client :
      Client → DockerService → Config → String → String → Exec (World W) (Unit {0})
  replace_client cli ds config network url =
      act (container_removed cli (tunnel_client_name ds))
        (env.docker.remove cli (tunnel_client_name ds))
      >> create_client cli ds config network url

  unfoldable pub place_client :
      Client → DockerService → Config → String → String → Exec (World W) (Unit {0})
  place_client cli ds config network url =
      let found = λ (existing : Inspected). do
        current ← expect existing.config
        if str_eq current.image config.image
            then keep_client cli ds existing url
            else replace_client cli ds config network url
      in handle (ask (env.docker.inspect cli (tunnel_client_name ds))) found
        (λ e. if e.not_found then create_client cli ds config network url else raise e)

  -- The representative container is inspected as `main`.
  unfoldable pub connect_client :
      Client → DockerService → String → Inspected → Exec (World W) (Unit {0})
  connect_client cli ds url main = do
    networks ← expect main.networks
    host ← gateway_host ds
    token ← ensure_tunnel_auth_secret env cluster ds
    let image = image_or_default cluster.operator_image
    ensure_image cli image
    let config = client_config image (client_connect_url host url token) token
    place_client cli ds config (first_network networks) url

  unfoldable pub reconcile_tunnel_client :
      Client → DockerService → DockerContainer → String → Exec (World W) (Unit {0})
  reconcile_tunnel_client cli ds representative url =
      handle (ask (env.docker.inspect cli representative.spec.container_name))
        (connect_client cli ds url) (λ e. if e.not_found then pure tt else raise e)
