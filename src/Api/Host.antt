-- ===== src/Api/Host.antt =====
-- api/v1alpha1/host.go
use k8s_docker_operator.Prelude.{String}
use k8s_docker_operator.Api.Meta.{Meta}

pub record DockerHostSpec : Type 0 where
  pub host_url : String
  pub tls_secret_name : String

pub record DockerHostStatus : Type 0 where
  pub phase : String
  pub message : String

pub record DockerHost : Type 0 where
  pub meta : Meta
  pub spec : DockerHostSpec
  pub status : DockerHostStatus
