-- ===== src/ContainerController/Former.antt =====
-- The former tunnel of internal/controller/dockercontainer/reconciler.go: the token and the
-- clients. No code calls these functions. A nil pointer that is dereferenced is an error here.
use k8s_docker_operator.Prelude.{ℕ, suc, String, none, List, [], ◌∷◌, Bool, str_eq, if◌then◌else◌}
use k8s_docker_operator.Prelude.Text.{◌<>◌, show_ℤ}
use k8s_docker_operator.Exec.{wrap, Exec, pure, raise, lift, attempt, handle, ◌>>=◌, ◌>>◌}
use k8s_docker_operator.Api.Meta.{Key}
use k8s_docker_operator.Api.Container.{DockerContainer, ServicePort}
use k8s_docker_operator.Outside.Docker.{Client, Config, HostConfig, Inspected, Network}
use k8s_docker_operator.Outside.Calls.{
  Env, World, Cluster, ask, act, image_pulled, container_created, container_started, secret_created,
}
use k8s_docker_operator.Common.Secrets.{text_at}
use k8s_docker_operator.JobController.Create.{no_resources}
use k8s_docker_operator.ContainerController.Reconcile.{tunnel_name}
use k8s_docker_operator.ServiceController.Auth.{hex_encode, bare_meta, token_secret}
use k8s_docker_operator.ServiceController.Client.{expect, first_name}

abbrev pub former_key : DockerContainer → String → Key
former_key cr name = record { namespace = cr.meta.namespace; name = name }

abbrev pub auth_name : DockerContainer → String
auth_name cr = "tunnel-auth-" <> cr.meta.name

abbrev pub former_image : String → String
former_image image = if str_eq image "" then "controller:latest" else image

-- The address in the network that the loop over the map meets first.
abbrev pub target_ip : List Network → String
target_ip [] = ""
target_ip (n ∷ ns) = n.ip_address

abbrev pub former_args : String → String → List String
former_args connect_url target_addr =
    "tunnel" ∷ "-mode" ∷ "client" ∷ "-server-url" ∷ connect_url ∷ "-target-addr" ∷ target_addr ∷ []

abbrev pub former_config : String → String → String → Config
former_config image connect_url target_addr = record {
  image = image;
  cmd = former_args connect_url target_addr;
  env = [];
  healthcheck = none;
  exposed_ports = [];
}

abbrev pub former_host_config : String → HostConfig
former_host_config mode = record {
  restart_policy = "always";
  binds = [];
  resources = no_resources;
  port_bindings = [];
  network_mode = mode;
}

abbrev pub no_services : List ServicePort → Bool
no_services [] = Bool.true
no_services (sp ∷ sps) = Bool.false

module _ {W F : Type 0} (env : Env W F) (cluster : Cluster W) where
  unfoldable pub generate_token : Exec (World W) String
  generate_token = ask (cluster.rand_read 32) >>= λ bytes. pure (hex_encode bytes)

  unfoldable pub create_auth : DockerContainer → Exec (World W) String
  create_auth cr = do
    token ← handle generate_token pure (λ e. raise (wrap "failed to generate tunnel token: " e))
    meta ← lift (env.libs.set_controller cr.meta (bare_meta (former_key cr (auth_name cr))))
    handle
        (act (secret_created (token_secret meta token))
          (env.secrets.create (token_secret meta token)))
        (λ _. pure token) (λ e. raise (wrap "failed to create tunnel auth secret: " e))

  unfoldable pub ensure_auth : DockerContainer → Exec (World W) String
  ensure_auth cr =
      handle (ask (env.secrets.get (former_key cr (auth_name cr))))
        (λ secret. pure (text_at "token" secret))
        (λ e. if e.not_found then create_auth cr else raise e)

  unfoldable pub former_gateway_host : String → Exec (World W) String
  former_gateway_host mode =
      let look =
        handle (ask cluster.control_planes) (λ names. pure (first_name names))
          (λ e. pure "localhost") in
      if str_eq mode "kind" then look else pure "localhost"

  abbrev pub former_url : String → String → String → String
  former_url host url token =
      "ws://"
      <> host
      <> ":30000/ws?target="
      <> cluster.query_escape url
      <> "&token="
      <> cluster.query_escape token

  unfoldable pub create_former : Client → String → Config → String → Exec (World W) (Unit {0})
  create_former cli mode config name = do
    id ←
        act (container_created cli config (former_host_config mode) name)
          (env.docker.create cli config (former_host_config mode) name)
    act (container_started cli id) (env.docker.start cli id)

  -- One round of the loop over the services; a container that is there is left as it is.
  unfoldable pub ensure_former :
      Client → DockerContainer → String → String → ℕ → ServicePort → Exec (World W) (Unit {0})
  ensure_former cli cr ip connect_url i sp =
      let name = tunnel_name cr.spec.container_name i in
      let config =
        former_config (former_image cluster.operator_image) connect_url
          (ip <> ":" <> show_ℤ sp.target_port) in
      handle (ask (env.docker.inspect cli name)) (λ _. pure tt)
        (λ e. if e.not_found then create_former cli cr.spec.network_mode config name else raise e)

  unfoldable pub ensure_formers :
      Client → DockerContainer → String → String → ℕ → List ServicePort → Exec (World W) (Unit {0})
  ensure_formers cli cr ip connect_url i [] = pure tt
  ensure_formers cli cr ip connect_url i (sp ∷ sps) =
      ensure_former cli cr ip connect_url i sp >> ensure_formers cli cr ip connect_url (suc i) sps

  unfoldable pub connect_formers :
      Client → DockerContainer → String → String → Exec (World W) (Unit {0})
  connect_formers cli cr url ip = do
    let image = former_image cluster.operator_image
    attempt (act (image_pulled cli image "") (env.docker.pull cli image ""))
    host ← former_gateway_host cr.spec.network_mode
    token ← ensure_auth cr
    ensure_formers cli cr ip (former_url host url token) 0 cr.spec.services

  unfoldable pub with_address :
      Client → DockerContainer → String → Inspected → Exec (World W) (Unit {0})
  with_address cli cr url main = do
    networks ← expect main.networks
    let ip = target_ip networks
    if str_eq ip "" then pure tt else connect_formers cli cr url ip

  unfoldable pub inspect_main : Client → DockerContainer → String → Exec (World W) (Unit {0})
  inspect_main cli cr url =
      handle (ask (env.docker.inspect cli cr.spec.container_name)) (with_address cli cr url)
        (λ e. if e.not_found then pure tt else raise e)

  unfoldable pub reconcile_former_client :
      Client → DockerContainer → String → Exec (World W) (Unit {0})
  reconcile_former_client cli cr url =
      if no_services cr.spec.services
      then pure tt
      else if str_eq url ""
      then pure tt
      else inspect_main cli cr url
