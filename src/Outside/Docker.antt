-- ===== src/Outside/Docker.antt =====
-- The Docker API as the program uses it: what an inspection shows, and what a creation is given.
use k8s_docker_operator.Prelude.{String, Option, List, Bool}
use k8s_docker_operator.Prelude.Int.{ℤ}

-- A client is known by its identity.
abbrev pub Client : Type 0
Client = String

pub record TlsConfig : Type 0 where
  pub root_cas : String
  pub certificate : String

-- The options of `NewClientWithOpts`: `host` is `none` for `FromEnv`, and API negotiation is always on.
-- `timeout` is that of the HTTP client, in nanoseconds.
pub record ClientOpts : Type 0 where
  pub host : Option String
  pub tls : Option TlsConfig
  pub timeout : Option ℤ

pub record Resources : Type 0 where
  pub nano_cpus : ℤ
  pub memory : ℤ

pub record HealthConfig : Type 0 where
  pub test : List String
  pub interval : ℤ
  pub timeout : ℤ
  pub retries : ℤ

-- container.Config; `exposed_ports` is a set of ports.
pub record Config : Type 0 where
  pub image : String
  pub cmd : List String
  pub env : List String
  pub healthcheck : Option HealthConfig
  pub exposed_ports : List String

-- A container port with the host address and port that it is bound to.
pub record PortBinding : Type 0 where
  pub container_port : String
  pub host_ip : String
  pub host_port : String

pub record HostConfig : Type 0 where
  pub restart_policy : String
  pub binds : List String
  pub resources : Resources
  pub port_bindings : List PortBinding
  pub network_mode : String

pub record ContainerState : Type 0 where
  pub running : Bool
  pub status : String
  pub exit_code : ℤ
  pub health : Option String

pub record Network : Type 0 where
  pub network_id : String
  pub ip_address : String

-- The answer of `ContainerInspect`: each part may be a nil pointer. `networks` has the networks in the
-- order in which the program's loop over the map meets them.
pub record Inspected : Type 0 where
  pub id : String
  pub state : Option ContainerState
  pub config : Option Config
  pub host_config : Option HostConfig
  pub networks : Option (List Network)

-- An entry of `ContainerList`.
pub record Listed : Type 0 where
  pub id : String
  pub names : List String
  pub image : String
  pub state : String

-- A file of a tar archive.
pub record TarEntry : Type 0 where
  pub name : String
  pub mode : ℤ
  pub size : ℤ
  pub content : String

pub record AuthConfig : Type 0 where
  pub username : String
  pub password : String
  pub server_address : String
