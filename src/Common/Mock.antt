-- ===== src/Common/Mock.antt =====
-- The Docker client of internal/controller/common/mock_client.go: a small daemon in memory. Each method
-- gives its answer and the daemon after it. The slice that a listing answers is a copy here.
use k8s_docker_operator.Prelude.{
  Bool, true, false, ◌||◌, String, Option, none, some, List, [], ◌∷◌, ◌++◌, map, str_eq,
  if◌then◌else◌,
}
use k8s_docker_operator.Prelude.Int.{pos}
use k8s_docker_operator.Prelude.Text.{◌<>◌}
use k8s_docker_operator.Exec.{Error, Result, ok, err, given, plain}
use k8s_docker_operator.Outside.Docker.{
  Client, ClientOpts, Config, HostConfig, Inspected, Network, Listed,
}
use k8s_docker_operator.Outside.Calls.{DockerApi}
use k8s_docker_operator.JobController.Create.{no_resources}

-- `networks` is `none` for nil network settings.
pub record MockContainer : Type 0 where
  pub id : String
  pub names : List String
  pub image : String
  pub state : String
  pub networks : Option (List Network)

pub record MockDockerClient : Type 0 where
  pub containers : List MockContainer
  pub created : List String
  pub removed : List String
  pub started : List String
  pub last_host_config : Option HostConfig
  pub last_config : Option Config
  pub last_pull_auth : String
  pub health_status : String

abbrev pub listed : MockContainer → Listed
listed c = record { id = c.id; names = c.names; image = c.image; state = c.state }

abbrev pub is_named_by : String → List String → Bool
is_named_by id [] = false
is_named_by id (name ∷ names) = (str_eq name id || str_eq name ("/" <> id)) || is_named_by id names

abbrev pub is_match : String → MockContainer → Bool
is_match id c = str_eq c.id id || is_named_by id c.names

unfoldable pub find_match : String → List MockContainer → Option MockContainer
find_match id [] = none
find_match id (c ∷ cs) = let rest = find_match id cs in if is_match id c then some c else rest

abbrev pub not_found : Error
not_found = record { not_found = true; message = "container not found" }

-- A Go program that indexes behind the end of a slice, or calls a method of a nil interface, panics.
abbrev pub panic : String → Error
panic text = plain ("runtime error: " <> text)

abbrev pub inspection : MockDockerClient → MockContainer → Inspected
inspection m c = record {
  id = c.id;
  state = some (record {
    running = str_eq c.state "running";
    status = c.state;
    exit_code = pos 0;
    health = if str_eq m.health_status "" then none else some m.health_status;
  });
  config = some (
      given m.last_config (λ config. config)
        (record { image = c.image; cmd = []; env = []; healthcheck = none; exposed_ports = [] }));
  host_config = some (
      given m.last_host_config (λ host. host)
        (record {
          restart_policy = "";
          binds = [];
          resources = no_resources;
          port_bindings = [];
          network_mode = "";
        }));
  networks = some (given c.networks (λ ns. ns) []);
}

-- `c.Names[0]` is read on the way.
abbrev pub inspected_as : MockDockerClient → MockContainer → Result Inspected
inspected_as m c = elim c.names [
  | [] ↦ err (panic "index out of range")
  | _ ∷ _ ↦ ok (inspection m c)
]

unfoldable pub container_inspect : String → MockDockerClient → Result Inspected × MockDockerClient
container_inspect id m = (given (find_match id m.containers) (inspected_as m) (err not_found), m)

abbrev pub mock_id : String → String
mock_id name = "mock-id-" <> name

abbrev pub new_container : Config → String → MockContainer
new_container config name = record {
  id = mock_id name;
  names = ("/" <> name) ∷ [];
  image = config.image;
  state = "created";
  networks = none;
}

unfoldable pub container_create :
    Config → HostConfig → String → MockDockerClient → Result String × MockDockerClient
container_create config host name m = (
  ok (mock_id name),
  record m {
    created = m.created ++ name ∷ [];
    last_host_config = some host;
    last_config = some config;
    containers = m.containers ++ new_container config name ∷ [];
  },
)

abbrev pub set_running : String → MockContainer → MockContainer
set_running id c = if str_eq c.id id then record c { state = "running" } else c

unfoldable pub container_start : String → MockDockerClient → Result (Unit {0}) × MockDockerClient
container_start id m = (
  ok tt,
  record m { started = m.started ++ id ∷ []; containers = map (set_running id) m.containers },
)

-- The first that passes the test, taken out.
unfoldable pub remove_first : (MockContainer → Bool) → List MockContainer → List MockContainer
remove_first test [] = []
remove_first test (c ∷ cs) = let rest = remove_first test cs in if test c then cs else c ∷ rest

unfoldable pub container_remove : String → MockDockerClient → Result (Unit {0}) × MockDockerClient
container_remove id m = (
  ok tt,
  record m {
    removed = m.removed ++ id ∷ [];
    containers =
        remove_first (λ c. is_named_by id c.names)
          (remove_first (λ c. str_eq c.id id) m.containers);
  },
)

-- `opens` is the creation of a client. `CopyToContainer` is a method of the embedded interface, which is nil.
abbrev pub mock_docker : (ClientOpts → Result Client) → DockerApi MockDockerClient
mock_docker opens = record {
  new_client = λ opts m. (opens opts, m);
  close = λ cli m. (ok tt, m);
  ping = λ cli m. (ok tt, m);
  inspect = λ cli id m. container_inspect id m;
  list = λ cli m. (ok (map listed m.containers), m);
  pull = λ cli image auth m. (ok tt, record m { last_pull_auth = auth });
  create = λ cli config host name m. container_create config host name m;
  copy_to = λ cli id archive m. (err (panic "nil pointer"), m);
  start = λ cli id m. container_start id m;
  stop = λ cli id m. (ok tt, m);
  remove = λ cli id m. container_remove id m;
}
