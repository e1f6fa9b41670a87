-- ===== src/JobController/Create.antt =====
-- `createAndStartContainer` of dockerjob/reconciler.go, with its loops as functions.
use k8s_docker_operator.Prelude.{
  String, Option, none, some, List, [], ◌∷◌, ◌++◌, map, ◌||◌, str_eq, if◌then◌else◌,
}
use k8s_docker_operator.Prelude.Int.{pos}
use k8s_docker_operator.Prelude.Text.{◌<>◌}
use k8s_docker_operator.Exec.{Exec, pure, lift, given, ◌>>=◌, ◌>>◌}
use k8s_docker_operator.Api.Container.{EnvVar, SecretKeySelector, SecretVolume, VolumeMount}
use k8s_docker_operator.Api.Job.{DockerJob}
use k8s_docker_operator.Outside.Docker.{Client, Config, HostConfig, Resources}
use k8s_docker_operator.Outside.Calls.{
  Env, World, act, image_pulled, container_created, container_started,
}
use k8s_docker_operator.Common.Secrets.{
  get_secret_value, get_auth_config, upload_secret_to_container,
}
use k8s_docker_operator.JobController.Memory.{build_docker_resources}

unfoldable pub container_name : DockerJob → String
container_name job =
    if str_eq job.spec.container_name "" then "job-" <> job.meta.name else job.spec.container_name

-- `ev.ValueFrom != nil && ev.ValueFrom.SecretKeyRef != nil`
unfoldable pub secret_ref : EnvVar → Option SecretKeySelector
secret_ref ev = elim ev.value_from [ none ↦ none | some source ↦ source.secret_key_ref ]

abbrev pub bind_of : VolumeMount → String
bind_of v =
    let bind = v.host_path <> ":" <> v.container_path in if v.read_only then bind <> ":ro" else bind

abbrev pub docker_policy : String → String
docker_policy policy =
    if str_eq policy "" || str_eq policy "Never"
    then "no"
    else if str_eq policy "OnFailure"
    then "on-failure"
    else policy

abbrev pub no_resources : Resources
no_resources = record { nano_cpus = pos 0; memory = pos 0 }

abbrev pub job_config : DockerJob → List String → Config
job_config job resolved_env = record {
  image = job.spec.image;
  cmd = job.spec.command ++ job.spec.args;
  env = resolved_env;
  healthcheck = none;
  exposed_ports = [];
}

module _ {W F : Type 0} (env : Env W F) where
  unfoldable pub env_value : String → EnvVar → Exec (World W) String
  env_value namespace ev =
      given (secret_ref ev) (λ ref. get_secret_value env namespace ref.name ref.key) (pure ev.value)

  -- The loop over `job.Spec.EnvVars`, after what is resolved already.
  unfoldable pub resolve_env : String → List String → List EnvVar → Exec (World W) (List String)
  resolve_env namespace done [] = pure done
  resolve_env namespace done (ev ∷ evs) = env_value namespace ev >>= λ val.
      resolve_env namespace (done ++ (ev.name <> "=" <> val) ∷ []) evs

  abbrev pub job_host_config : DockerJob → HostConfig
  job_host_config job = record {
    restart_policy = docker_policy job.spec.restart_policy;
    binds = map bind_of job.spec.volume_mounts;
    resources = given job.spec.resources (build_docker_resources env.libs) no_resources;
    port_bindings = [];
    network_mode = "";
  }

  unfoldable pub pull_auth : DockerJob → Exec (World W) String
  pull_auth job =
      let encode = do
        auth ← get_auth_config env job.meta.namespace job.spec.image_pull_secret
        lift (env.libs.encode_auth auth)
      in if str_eq job.spec.image_pull_secret "" then pure "" else encode

  -- The loop over `job.Spec.SecretVolumes`.
  unfoldable pub upload_all :
      Client → String → String → List SecretVolume → Exec (World W) (Unit {0})
  upload_all cli namespace id [] = pure tt
  upload_all cli namespace id (sv ∷ svs) =
      upload_secret_to_container env cli namespace sv id >> upload_all cli namespace id svs

  -- All of `createAndStartContainer` but its last call.
  unfoldable pub prepare_container : Client → DockerJob → Exec (World W) String
  prepare_container cli job = do
    auth ← pull_auth job
    act (image_pulled cli job.spec.image auth) (env.docker.pull cli job.spec.image auth)
    resolved_env ← resolve_env job.meta.namespace job.spec.env job.spec.env_vars
    let config = job_config job resolved_env
    let host_config = job_host_config job
    let name = container_name job
    id ←
        act (container_created cli config host_config name)
          (env.docker.create cli config host_config name)
    upload_all cli job.meta.namespace id job.spec.secret_volumes
    pure id

  unfoldable pub create_and_start_container : Client → DockerJob → Exec (World W) (Unit {0})
  create_and_start_container cli job =
      prepare_container cli job >>= λ id. act (container_started cli id) (env.docker.start cli id)
