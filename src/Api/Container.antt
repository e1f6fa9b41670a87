-- ===== src/Api/Container.antt =====
-- api/v1alpha1/container.go
use k8s_docker_operator.Prelude.{String, Option, List, Bool}
use k8s_docker_operator.Prelude.Int.{ℤ}
use k8s_docker_operator.Api.Meta.{Meta}

pub record SecretKeySelector : Type 0 where
  pub name : String
  pub key : String

pub record EnvVarSource : Type 0 where
  pub secret_key_ref : Option SecretKeySelector

pub record EnvVar : Type 0 where
  pub name : String
  pub value : String
  pub value_from : Option EnvVarSource

pub record SecretVolume : Type 0 where
  pub secret_name : String
  pub mount_path : String

pub record VolumeMount : Type 0 where
  pub host_path : String
  pub container_path : String
  pub read_only : Bool

pub record ResourceRequirements : Type 0 where
  pub cpu_limit : String
  pub memory_limit : String

pub record HealthCheckConfig : Type 0 where
  pub test : List String
  pub interval : String
  pub timeout : String
  pub retries : ℤ

pub record ServicePort : Type 0 where
  pub port : ℤ
  pub target_port : ℤ
  pub name : String

pub record DockerContainerSpec : Type 0 where
  pub image : String
  pub container_name : String
  pub ports : List String
  pub command : List String
  pub env : List String
  pub restart_policy : String
  pub docker_host_ref : String
  pub image_pull_secret : String
  pub volume_mounts : List VolumeMount
  pub services : List ServicePort
  pub network_mode : String
  pub env_vars : List EnvVar
  pub secret_volumes : List SecretVolume
  pub health_check : Option HealthCheckConfig
  pub resources : Option ResourceRequirements

pub record DockerContainerStatus : Type 0 where
  pub id : String
  pub state : String
  pub health : String
  pub ipv4 : String

pub record DockerContainer : Type 0 where
  pub meta : Meta
  pub spec : DockerContainerSpec
  pub status : DockerContainerStatus
