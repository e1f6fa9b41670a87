-- ===== src/Api/Job.antt =====
-- api/v1alpha1/job_types.go. int32 and int64 fields are integers; a pointer is an `Option`.
use k8s_docker_operator.Prelude.{String, Option, List, Bool, true, false}
use k8s_docker_operator.Prelude.Int.{ℤ}
use k8s_docker_operator.Api.Meta.{Meta}
use k8s_docker_operator.Api.Container.{EnvVar, VolumeMount, SecretVolume, ResourceRequirements}

-- The string type with its four constants; `other` is any other text, the empty one included.
pub data DockerJobPhase : Type 0 where
  pending running succeeded failed : DockerJobPhase
  other : String → DockerJobPhase

pub record DockerJobSpec : Type 0 where
  pub image : String
  pub container_name : String
  pub command : List String
  pub args : List String
  pub env : List String
  pub env_vars : List EnvVar
  pub volume_mounts : List VolumeMount
  pub secret_volumes : List SecretVolume
  pub docker_host_ref : String
  pub image_pull_secret : String
  pub restart_policy : String
  pub backoff_limit : ℤ
  pub active_deadline_seconds : Option ℤ
  pub ttl_seconds_after_finished : Option ℤ
  pub resources : Option ResourceRequirements

pub record DockerJobStatus : Type 0 where
  pub phase : DockerJobPhase
  pub container_id : String
  pub start_time : Option ℤ
  pub completion_time : Option ℤ
  pub exit_code : Option ℤ
  pub attempts : ℤ
  pub message : String

pub record DockerJob : Type 0 where
  pub meta : Meta
  pub spec : DockerJobSpec
  pub status : DockerJobStatus

abbrev pub is_running : DockerJobPhase → Bool
is_running running = true
is_running _ = false

-- The test of `Reconcile` and of `setStatus`: Succeeded or Failed.
abbrev pub is_finished : DockerJobPhase → Bool
is_finished succeeded = true
is_finished failed = true
is_finished _ = false
