-- ===== src/Api/Deployment.antt =====
-- api/v1alpha1/deployment_types.go. The selector and the conditions, which only the copies
-- of the program read, stand in Api.Copies.Cells.
use k8s_docker_operator.Prelude.{String, Option, List}
use k8s_docker_operator.Prelude.Int.{ℤ}
use k8s_docker_operator.Api.Meta.{Meta}
use k8s_docker_operator.Api.Container.{DockerContainerSpec}

pub record TemplateMeta : Type 0 where
  pub labels : Option (List (String × String))
  pub annotations : Option (List (String × String))

pub record DockerContainerTemplate : Type 0 where
  pub metadata : TemplateMeta
  pub spec : DockerContainerSpec

pub record DockerDeploymentSpec : Type 0 where
  pub replicas : Option ℤ
  pub template : DockerContainerTemplate

pub record DockerDeploymentStatus : Type 0 where
  pub available_replicas : ℤ

pub record DockerDeployment : Type 0 where
  pub meta : Meta
  pub spec : DockerDeploymentSpec
  pub status : DockerDeploymentStatus
