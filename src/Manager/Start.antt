-- ===== src/Manager/Start.antt =====
-- The rest of `main` in cmd/manager/main.go, and the `SetupWithManager` of each reconciler. What
-- controller-runtime answers to a call is a parameter.
use k8s_docker_operator.Prelude.{
  Bool, false, Option, none, some, List, [], ◌∷◌, ◌++◌, if◌then◌else◌,
}
use k8s_docker_operator.Prelude.Text.{codes}
use k8s_docker_operator.Exec.{Result, Exec, ok, given, ◌>>=◌, ◌>>◌}
use k8s_docker_operator.Tunnel.Targets.{Text, text_eq}
use k8s_docker_operator.Manager.Run.{Run, run_tunnel}

pub record ManagerFlags : Type 0 where
  pub metrics_addr : Text
  pub probe_addr : Text
  pub logs_addr : Text
  pub enable_leader_election : Bool

-- The values of flags that are not given.
abbrev pub default_manager_flags : ManagerFlags
default_manager_flags = record {
  metrics_addr = codes ":8080";
  probe_addr = codes ":8081";
  logs_addr = codes ":8082";
  enable_leader_election = false;
}

pub record ManagerOptions : Type 0 where
  pub metrics_bind_address : Text
  pub health_probe_bind_address : Text
  pub leader_election : Bool
  pub leader_election_id : Text

abbrev pub manager_options : ManagerFlags → ManagerOptions
manager_options f = record {
  metrics_bind_address = f.metrics_addr;
  health_probe_bind_address = f.probe_addr;
  leader_election = f.enable_leader_election;
  leader_election_id = codes "94c73569.kdop.io.vn";
}

pub data Resource : Type 0 where
  docker_container docker_host docker_service docker_job docker_deployment : Resource

-- The resource that a controller reconciles, the one whose changes go to its owner, and the one whose changes
-- go where a function of the reconciler says.
pub record Registration : Type 0 where
  pub reconciles : Resource
  pub owns : Option Resource
  pub watches : Option Resource

abbrev pub setup_container : Registration
setup_container = record { reconciles = docker_container; owns = none; watches = none }

abbrev pub setup_host : Registration
setup_host = record { reconciles = docker_host; owns = none; watches = none }

abbrev pub setup_service : Registration
setup_service = record { reconciles = docker_service; owns = none; watches = some docker_container }

abbrev pub setup_job : Registration
setup_job = record { reconciles = docker_job; owns = none; watches = none }

abbrev pub setup_deployment : Registration
setup_deployment = record {
  reconciles = docker_deployment;
  owns = some docker_container;
  watches = none;
}

-- What `main` asks of controller-runtime. The last two run until they fail or are told to stop.
pub data Call : Type 0 where
  new_manager : ManagerOptions → Call
  complete : Registration → Call
  add_healthz add_readyz : Call
  serve_logs : Text → Call
  start : Call

-- The calls made so far, the first of them first.
abbrev pub Calls : Type 0
Calls = List Call

-- What the arguments behind the program's name start: the command `tunnel`, or the manager with the flags as
-- the package `flag` reads them, `none` for an error in them.
pub data Program : Type 0 where
  tunnels : Run → Program
  manages : (Result (Unit {0}) × Calls) → Program
  usage_error : Program

module _ (answer : Call → Result (Unit {0})) where
  -- `if err := call; err != nil { os.Exit(1) }`
  unfoldable pub must : Call → Exec Calls (Unit {0})
  must c calls = (answer c, calls ++ c ∷ [])

  -- `go func() { ... }()`: an error is only logged.
  unfoldable pub spawn : Call → Exec Calls (Unit {0})
  spawn c calls = (ok tt, calls ++ c ∷ [])

  -- `err` is the end of the program with code 1.
  unfoldable pub run_manager : ManagerFlags → Exec Calls (Unit {0})
  unfolding ◌>>=◌ must spawn
  run_manager f = do
    must (new_manager (manager_options f))
    must (complete setup_container)
    must (complete setup_host)
    must (complete setup_service)
    must (complete setup_job)
    must (complete setup_deployment)
    must add_healthz
    must add_readyz
    spawn (serve_logs f.logs_addr)
    must start

  unfoldable pub main : (List Text → Option ManagerFlags) → List Text → Program
  main parse [] = given (parse []) (λ f. manages (run_manager f [])) usage_error
  main parse (command ∷ args) =
      if text_eq command (codes "tunnel")
      then tunnels (run_tunnel args)
      else given (parse (command ∷ args)) (λ f. manages (run_manager f [])) usage_error
