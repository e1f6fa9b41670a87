-- ===== src/Api/Cluster.antt =====
-- The objects of Kubernetes itself that the service controller writes or reads, with the fields that it
-- sets to what varies. The labels and the selectors of the first and the third are `app`.
use k8s_docker_operator.Prelude.{String, List}
use k8s_docker_operator.Prelude.Int.{ℤ}
use k8s_docker_operator.Api.Meta.{Key, Meta}

pub record CorePort : Type 0 where
  pub name : String
  pub port : ℤ
  pub target_port : ℤ

-- corev1.Service
pub record CoreService : Type 0 where
  pub key : Key
  pub owner : Meta
  pub app : String
  pub ports : List CorePort

-- corev1.ConfigMap with the one entry `targets`.
pub record TargetsMap : Type 0 where
  pub key : Key
  pub owner : Meta
  pub targets : String

-- appsv1.Deployment with one container, in which the entry of a TargetsMap is mounted as a file.
pub record CoreDeployment : Type 0 where
  pub key : Key
  pub owner : Meta
  pub app : String
  pub replicas : ℤ
  pub image : String
  pub args : List String
  pub targets_map : String

pub record Pod : Type 0 where
  pub phase : String
  pub pod_ip : String

-- controllerutil.OperationResult
pub data OperationResult : Type 0 where
  unchanged created updated : OperationResult

-- What the former tunnel of the container controller makes: a deployment with its containers, and a
-- service.
pub record FormerContainer : Type 0 where
  pub name : String
  pub image : String
  pub command : List String
  pub ports : List ℤ

pub record FormerDeployment : Type 0 where
  pub meta : Meta
  pub app : String
  pub replicas : ℤ
  pub containers : List FormerContainer

pub record FormerService : Type 0 where
  pub meta : Meta
  pub app : String
  pub ports : List CorePort
