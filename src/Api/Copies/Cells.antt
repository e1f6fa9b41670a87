-- ===== src/Api/Copies/Cells.antt =====
-- The structs of api/v1alpha1 as they stand in memory: a pointer, slice or map is the address of its cell,
-- `none` for nil. A field of a type of Kubernetes has a type of which only its own copy is known: `M` is
-- metav1.ObjectMeta, `L` metav1.ListMeta, `S` metav1.LabelSelector, `C` metav1.Condition, and `X` is what
-- those and metav1.Time have in cells of their own.
use k8s_docker_operator.Prelude.{ℕ, ◌≡◌, refl, String, Option, none, some, List, subst, ap}
use mathlib.Core.HLevel.{hedberg}
use mathlib.Core.Path.{subst_refl}
use k8s_docker_operator.Prelude.Int.{ℤ}
use k8s_docker_operator.Api.Container.{
  VolumeMount, ServicePort, SecretVolume, ResourceRequirements, SecretKeySelector,
  DockerContainerStatus,
}
use k8s_docker_operator.Api.Host.{DockerHostSpec, DockerHostStatus}
use k8s_docker_operator.Api.Service.{DockerServiceStatus}
use k8s_docker_operator.Api.Job.{DockerJobPhase}
use k8s_docker_operator.Api.Copies.Memory.{Kind}

pub record TypeMeta : Type 0 where
  pub kind : String
  pub api_version : String

-- A resource; `T` is its spec and `U` its status.
pub record ObjectAt (M T U : Type 0) : Type 0 where
  pub type_meta : TypeMeta
  pub meta : M
  pub spec : T
  pub status : U

pub record ListAt (L : Type 0) : Type 0 where
  pub type_meta : TypeMeta
  pub meta : L
  pub items : Option ℕ

pub record EnvVarSourceAt : Type 0 where
  pub secret_key_ref : Option ℕ

pub record EnvVarAt : Type 0 where
  pub name : String
  pub value : String
  pub value_from : Option ℕ

pub record HealthCheckConfigAt : Type 0 where
  pub test : Option ℕ
  pub interval : String
  pub timeout : String
  pub retries : ℤ

pub record DockerContainerSpecAt : Type 0 where
  pub image : String
  pub container_name : String
  pub ports : Option ℕ
  pub command : Option ℕ
  pub env : Option ℕ
  pub restart_policy : String
  pub docker_host_ref : String
  pub image_pull_secret : String
  pub volume_mounts : Option ℕ
  pub services : Option ℕ
  pub network_mode : String
  pub env_vars : Option ℕ
  pub secret_volumes : Option ℕ
  pub health_check : Option ℕ
  pub resources : Option ℕ

pub record DockerServiceSpecAt : Type 0 where
  pub container_ref : String
  pub selector : Option ℕ
  pub ports : Option ℕ
  pub network_mode : String

pub record DockerJobSpecAt : Type 0 where
  pub image : String
  pub container_name : String
  pub command : Option ℕ
  pub args : Option ℕ
  pub env : Option ℕ
  pub env_vars : Option ℕ
  pub volume_mounts : Option ℕ
  pub secret_volumes : Option ℕ
  pub docker_host_ref : String
  pub image_pull_secret : String
  pub restart_policy : String
  pub backoff_limit : ℤ
  pub active_deadline_seconds : Option ℕ
  pub ttl_seconds_after_finished : Option ℕ
  pub resources : Option ℕ

pub record DockerJobStatusAt : Type 0 where
  pub phase : DockerJobPhase
  pub container_id : String
  pub start_time : Option ℕ
  pub completion_time : Option ℕ
  pub exit_code : Option ℕ
  pub attempts : ℤ
  pub message : String

pub record TemplateMetaAt : Type 0 where
  pub labels : Option ℕ
  pub annotations : Option ℕ

pub record DockerContainerTemplateAt : Type 0 where
  pub metadata : TemplateMetaAt
  pub spec : DockerContainerSpecAt

pub record DockerDeploymentSpecAt : Type 0 where
  pub replicas : Option ℕ
  pub selector : Option ℕ
  pub template : DockerContainerTemplateAt

pub record DockerDeploymentStatusAt : Type 0 where
  pub available_replicas : ℤ
  pub conditions : Option ℕ

-- What a cell can hold.
pub data Holds : Type 0 where
  strings mounts mount ports port volumes volume resources key source env_vars env_var : Holds
  health integer labels label_selector conditions foreign : Holds
  container containers container_spec container_status : Holds
  host hosts host_spec host_status : Holds
  service services service_spec service_status : Holds
  job jobs job_spec job_status : Holds
  deployment deployments deployment_spec deployment_status template template_meta : Holds
  resource_list : Holds

unfoldable pub Holds-discrete : Discrete Holds
Holds-discrete = hlevel

abbrev pub value_if : (P : Holds → Type 0) (s t : Holds) → Dec (s ≡ t) → P s → Option (P t)
value_if P s t (yes same) a = some (subst P same a)
value_if P s t (no other) a = none

pub value_if-same :
    (P : Holds → Type 0) (t : Holds) (d : Dec (t ≡ t)) (a : P t) → value_if P t t d a ≡ some a
value_if-same P t (yes same) a =
    let is_refl : same ≡ refl = hedberg Holds-discrete t t same refl in
    rw is_refl (ap some (subst_refl P a))
value_if-same P t (no other) a = absurd (other refl)

module _ (M L S C X : Type 0) where
  abbrev pub Content : Holds → Type 0
  Content strings = List String
  Content mounts = List VolumeMount
  Content mount = VolumeMount
  Content ports = List ServicePort
  Content port = ServicePort
  Content volumes = List SecretVolume
  Content volume = SecretVolume
  Content resources = ResourceRequirements
  Content key = SecretKeySelector
  Content source = EnvVarSourceAt
  Content env_vars = List EnvVarAt
  Content env_var = EnvVarAt
  Content health = HealthCheckConfigAt
  Content integer = ℤ
  Content labels = List (String × String)
  Content label_selector = S
  Content conditions = List C
  Content foreign = X
  Content container = ObjectAt M DockerContainerSpecAt DockerContainerStatus
  Content containers = List (ObjectAt M DockerContainerSpecAt DockerContainerStatus)
  Content container_spec = DockerContainerSpecAt
  Content container_status = DockerContainerStatus
  Content host = ObjectAt M DockerHostSpec DockerHostStatus
  Content hosts = List (ObjectAt M DockerHostSpec DockerHostStatus)
  Content host_spec = DockerHostSpec
  Content host_status = DockerHostStatus
  Content service = ObjectAt M DockerServiceSpecAt DockerServiceStatus
  Content services = List (ObjectAt M DockerServiceSpecAt DockerServiceStatus)
  Content service_spec = DockerServiceSpecAt
  Content service_status = DockerServiceStatus
  Content job = ObjectAt M DockerJobSpecAt DockerJobStatusAt
  Content jobs = List (ObjectAt M DockerJobSpecAt DockerJobStatusAt)
  Content job_spec = DockerJobSpecAt
  Content job_status = DockerJobStatusAt
  Content deployment = ObjectAt M DockerDeploymentSpecAt DockerDeploymentStatusAt
  Content deployments = List (ObjectAt M DockerDeploymentSpecAt DockerDeploymentStatusAt)
  Content deployment_spec = DockerDeploymentSpecAt
  Content deployment_status = DockerDeploymentStatusAt
  Content template = DockerContainerTemplateAt
  Content template_meta = TemplateMetaAt
  Content resource_list = ListAt L

  abbrev pub Cell : Type 0
  Cell = (t : Holds) × Content t

module _ {M L S C X : Type 0} where
  -- The cells that hold a `t`.
  abbrev pub cell_of : (t : Holds) → Kind (Cell M L S C X) (Content M L S C X t)
  cell_of t = record {
    put = λ a. (t, a);
    get = λ (s, a). value_if (Content M L S C X) s t (Holds-discrete s t) a;
    get-put = λ a. value_if-same (Content M L S C X) t (Holds-discrete t t) a;
  }
