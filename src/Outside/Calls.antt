-- ===== src/Outside/Calls.antt =====
-- The operations of the outside, the calls that are noted, and the actions built from them.
use k8s_docker_operator.Prelude.{String, Option, List, ◌∷◌, Bool, ℕ}
use k8s_docker_operator.Prelude.Int.{ℤ}
use k8s_docker_operator.Prelude.Text.{find_key, store_key, delete_key}
use k8s_docker_operator.Exec.{Result, ok, Exec}
use k8s_docker_operator.Api.Meta.{Key, Meta, Secret}
use k8s_docker_operator.Api.Container.{DockerContainer}
use k8s_docker_operator.Api.Job.{DockerJob}
use k8s_docker_operator.Api.Host.{DockerHost}
use k8s_docker_operator.Api.Service.{DockerService}
use k8s_docker_operator.Api.Cluster.{
  CoreService, TargetsMap, CoreDeployment, Pod, OperationResult, FormerDeployment, FormerService,
}
use k8s_docker_operator.Api.Deployment.{DockerDeployment}
use k8s_docker_operator.Outside.Docker.{
  Client, ClientOpts, Config, HostConfig, Inspected, Listed, TarEntry, AuthConfig,
}

-- The Kubernetes client at one kind of object. An update answers with the object as the server
-- stored it.
pub record Objects (W T : Type 0) : Type 0 where
  pub get : Key → W → Result T × W
  pub list : String → W → Result (List T) × W
  pub create : T → W → Result T × W
  pub delete : T → W → Result (Unit {0}) × W
  pub update : T → W → Result T × W
  pub update_status : T → W → Result T × W

pub record DockerApi (W : Type 0) : Type 0 where
  pub new_client : ClientOpts → W → Result Client × W
  pub close : Client → W → Result (Unit {0}) × W
  pub ping : Client → W → Result (Unit {0}) × W
  pub inspect : Client → String → W → Result Inspected × W
  pub list : Client → W → Result (List Listed) × W
  pub pull : Client → String → String → W → Result (Unit {0}) × W
  pub create : Client → Config → HostConfig → String → W → Result String × W
  pub copy_to : Client → String → String → W → Result (Unit {0}) × W
  pub start : Client → String → W → Result (Unit {0}) × W
  pub stop : Client → String → W → Result (Unit {0}) × W
  pub remove : Client → String → W → Result (Unit {0}) × W

-- Library functions: floats, archives, certificates, the JSON and base64 of registry credentials,
-- ports, lower case, and the helpers of controller-runtime.
pub record Libraries (F : Type 0) : Type 0 where
  pub parse_float : String → Option F
  pub scan_float : String → F
  pub nano_of : F → ℤ  -- int64(x * 1e9)
  pub parse_duration : String → Option ℤ
  pub to_lower : String → String
  pub lower_codes : List ℕ → List ℕ
  pub join_path : String → String → String
  pub tar : List TarEntry → Result String
  pub append_certs : String → Bool
  pub key_pair : String → String → Result String
  pub encode_auth : AuthConfig → Result String
  pub new_port : String → Option String
  pub contains_finalizer : Meta → String → Bool
  pub add_finalizer : Meta → String → Meta
  pub remove_finalizer : Meta → String → Meta
  pub set_controller : Meta → Meta → Result Meta

-- `injected` is the reconciler's field `DockerClient`, nil outside tests.
pub record Env (W F : Type 0) : Type 0 where
  pub now : W → ℤ × W
  pub secrets : Objects W Secret
  pub hosts : Objects W DockerHost
  pub jobs : Objects W DockerJob
  pub containers : Objects W DockerContainer
  pub deployments : Objects W DockerDeployment
  pub docker : DockerApi W
  pub libs : Libraries F
  pub injected : Option Client

-- What the service controller calls besides. `ensure_…` is `CreateOrUpdate` with a closure that sets the
-- fields of the object given and its owner. A selector of the API is parsed to another text.
pub record Cluster (W : Type 0) : Type 0 where
  pub services : Objects W DockerService
  pub as_selector : String → Result String
  pub matches : String → Option (List (String × String)) → Bool
  pub select : String → String → W → Result (List DockerContainer) × W
  pub ensure_service : CoreService → W → Result OperationResult × W
  pub ensure_targets : TargetsMap → W → Result OperationResult × W
  pub ensure_deployment : CoreDeployment → W → Result OperationResult × W
  pub pods : String → String → W → Result (List Pod) × W
  pub control_planes : W → Result (List String) × W
  pub push_reload : String → String → W → Result (Unit {0}) × W
  pub network_connect : Client → String → String → W → Result (Unit {0}) × W
  pub inspect_image : Client → String → W → Result (Unit {0}) × W
  pub rand_read : ℕ → W → Result (List ℕ) × W
  pub query_escape : String → String
  pub operator_image : String  -- os.Getenv("OPERATOR_IMAGE")

-- The kinds of objects of the former tunnel.
pub record Former (W : Type 0) : Type 0 where
  pub deployments : Objects W FormerDeployment
  pub services : Objects W FormerService

pub data Effect : Type 0 where
  client_opened : ClientOpts → Effect
  client_closed : Client → Effect
  image_pulled : Client → String → String → Effect
  container_created : Client → Config → HostConfig → String → Effect
  container_copied : Client → String → String → Effect
  container_started : Client → String → Effect
  container_stopped : Client → String → Effect
  container_removed : Client → String → Effect
  job_updated : DockerJob → Effect
  job_status_updated : DockerJob → Effect
  host_status_updated : DockerHost → Effect
  object_updated : DockerContainer → Effect
  object_status_updated : DockerContainer → Effect
  object_created : DockerContainer → Effect
  object_deleted : DockerContainer → Effect
  deployment_status_updated : DockerDeployment → Effect
  service_updated : DockerService → Effect
  service_status_updated : DockerService → Effect
  secret_created : Secret → Effect
  core_service_ensured : CoreService → Effect
  targets_ensured : TargetsMap → Effect
  core_deployment_ensured : CoreDeployment → Effect
  reload_pushed : String → String → Effect
  network_connected : Client → String → String → Effect
  former_deployment_created : FormerDeployment → Effect
  former_deployment_updated : FormerDeployment → Effect
  former_service_created : FormerService → Effect

-- An entry of the reconciler's `dockerClients`.
pub record CachedClient : Type 0 where
  pub client : Client
  pub created_at : ℤ

pub record World (W : Type 0) : Type 0 where
  pub outside : W
  pub cache : List (String × CachedClient)
  pub trace : List Effect

module _ {W A : Type 0} where
  -- A call that only reads.
  unfoldable pub ask : (W → Result A × W) → Exec (World W) A
  ask f w = ((f w.outside).0, record w { outside = (f w.outside).1 })

  -- A call that may change something outside.
  unfoldable pub act : Effect → (W → Result A × W) → Exec (World W) A
  act e f w = ((f w.outside).0, record w { outside = (f w.outside).1; trace = e ∷ w.trace })

-- The `sync.Map` of clients: Load, Store and Delete.
module _ {W : Type 0} where
  unfoldable pub cache_load : String → Exec (World W) (Option CachedClient)
  cache_load key w = (ok (find_key key w.cache), w)

  unfoldable pub cache_store : String → CachedClient → Exec (World W) (Unit {0})
  cache_store key entry w = (ok tt, record w { cache = store_key key entry w.cache })

  unfoldable pub cache_delete : String → Exec (World W) (Unit {0})
  cache_delete key w = (ok tt, record w { cache = delete_key key w.cache })
