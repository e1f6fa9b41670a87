-- ===== src/Api/Service.antt =====
-- api/v1alpha1/service.go. A label selector is known by its text.
use k8s_docker_operator.Prelude.{String, Option, List}
use k8s_docker_operator.Prelude.Int.{ℤ}
use k8s_docker_operator.Api.Meta.{Meta}
use k8s_docker_operator.Api.Container.{ServicePort}

pub record DockerServiceSpec : Type 0 where
  pub container_ref : String
  pub selector : Option String
  pub ports : List ServicePort
  pub network_mode : String

pub record DockerServiceStatus : Type 0 where
  pub phase : String
  pub tunnel_clients : ℤ
  pub tunnel_server_url : String
  pub message : String

pub record DockerService : Type 0 where
  pub meta : Meta
  pub spec : DockerServiceSpec
  pub status : DockerServiceStatus
