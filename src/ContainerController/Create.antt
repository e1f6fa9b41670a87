-- ===== src/ContainerController/Create.antt =====
-- `createAndStartContainer` of internal/controller/dockercontainer/reconciler.go. The maps of port
-- bindings and of exposed ports are lists without repeated keys. The loops over environment variables
-- and Secret volumes, and a volume's bind, are the same code as in dockerjob/reconciler.go.
use k8s_docker_operator.Prelude.{
  String, Option, none, some, List, [], ◌∷◌, map, str_eq, if◌then◌else◌,
}
use k8s_docker_operator.Prelude.Text.{split_string}
use k8s_docker_operator.Exec.{Exec, pure, lift, given, ◌>>=◌, ◌>>◌}
use k8s_docker_operator.Api.Container.{DockerContainer}
use k8s_docker_operator.Outside.Docker.{Client, Config, HostConfig, PortBinding}
use k8s_docker_operator.Outside.Calls.{
  Env, Libraries, World, act, image_pulled, container_created, container_started,
}
use k8s_docker_operator.ContainerController.Secrets.{get_auth_config}
use k8s_docker_operator.JobController.Create.{bind_of, resolve_env, upload_all, no_resources}
use k8s_docker_operator.ContainerController.Drift.{
  build_docker_resources, build_docker_health_check,
}

-- `hostConfig.PortBindings[portKey] = ...`
unfoldable pub put_binding : PortBinding → List PortBinding → List PortBinding
put_binding b [] = b ∷ []
put_binding b (x ∷ xs) =
    let rest = put_binding b xs in
    if str_eq x.container_port b.container_port then b ∷ xs else x ∷ rest

-- `config.ExposedPorts[portKey] = struct{}{}`
unfoldable pub expose : String → List String → List String
expose port [] = port ∷ []
expose port (x ∷ xs) = let rest = expose port xs in if str_eq x port then port ∷ xs else x ∷ rest

-- `len(parts) == 2`
abbrev pub two_parts : List String → Option (String × String)
two_parts (host ∷ container ∷ []) = some (host, container)
two_parts _ = none

pub record Published : Type 0 where
  pub bindings : List PortBinding
  pub exposed : List String

abbrev pub publish : String → String → Published → Published
publish port host_port p = record {
  bindings =
      put_binding (record { container_port = port; host_ip = "0.0.0.0"; host_port = host_port })
        p.bindings;
  exposed = expose port p.exposed;
}

module _ {F : Type 0} (libs : Libraries F) where
  -- One round of the loop over the ports; a text with another number of parts, or with a port that is
  -- none, is passed over.
  unfoldable pub publish_port : String → Published → Published
  publish_port text p =
      given (two_parts (split_string ":" text))
        (λ parts. given (libs.new_port parts.1) (λ port. publish port parts.0 p) p) p

  unfoldable pub publish_ports : List String → Published → Published
  publish_ports [] p = p
  publish_ports (text ∷ texts) p = publish_ports texts (publish_port text p)

  abbrev pub published : DockerContainer → Published
  published cr = publish_ports cr.spec.ports (record { bindings = []; exposed = [] })

  abbrev pub container_config : DockerContainer → List String → Config
  container_config cr resolved_env = record {
    image = cr.spec.image;
    cmd = cr.spec.command;
    env = resolved_env;
    healthcheck = given cr.spec.health_check (λ hc. some (build_docker_health_check libs hc)) none;
    exposed_ports = (published cr).exposed;
  }

  abbrev pub container_host_config : DockerContainer → HostConfig
  container_host_config cr = record {
    restart_policy = libs.to_lower cr.spec.restart_policy;
    binds = map bind_of cr.spec.volume_mounts;
    resources = given cr.spec.resources (build_docker_resources libs) no_resources;
    port_bindings = (published cr).bindings;
    network_mode = "";
  }

module _ {W F : Type 0} (env : Env W F) where
  unfoldable pub pull_auth : DockerContainer → Exec (World W) String
  pull_auth cr =
      let encode = do
        auth ← get_auth_config env cr.meta.namespace cr.spec.image_pull_secret
        lift (env.libs.encode_auth auth)
      in if str_eq cr.spec.image_pull_secret "" then pure "" else encode

  -- Up to the creation, which answers with the identity of the container.
  unfoldable pub make_container : Client → DockerContainer → Exec (World W) String
  make_container cli cr = do
    auth ← pull_auth cr
    act (image_pulled cli cr.spec.image auth) (env.docker.pull cli cr.spec.image auth)
    resolved_env ← resolve_env env cr.meta.namespace cr.spec.env cr.spec.env_vars
    let config = container_config env.libs cr resolved_env
    let host_config = container_host_config env.libs cr
    let name = cr.spec.container_name
    act (container_created cli config host_config name)
        (env.docker.create cli config host_config name)

  -- The uploads, then the start.
  unfoldable pub fill_and_start : Client → DockerContainer → String → Exec (World W) (Unit {0})
  fill_and_start cli cr id =
      upload_all env cli cr.meta.namespace id cr.spec.secret_volumes
      >> act (container_started cli id) (env.docker.start cli id)

  unfoldable pub create_and_start_container : Client → DockerContainer → Exec (World W) (Unit {0})
  create_and_start_container cli cr = make_container cli cr >>= fill_and_start cli cr
