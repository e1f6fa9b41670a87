-- ===== src/Tests/Deployment.antt =====
-- The theorems of the deployment and host controllers at small objects.
use k8s_docker_operator.Prelude.{
  ℕ, String, ◌≡◌, ◌≢◌, refl, true, List, [], ◌∷◌, none, some, arith, All,
}
use k8s_docker_operator.Prelude.Int.{ℤ, pos, negsuc, int32, ◌-ℤ◌}
use k8s_docker_operator.Exec.{ok, err, given, ◌>>=◌}
use k8s_docker_operator.Api.Container.{DockerContainer, DockerContainerSpec}
use k8s_docker_operator.Api.Deployment.{DockerDeployment}
use k8s_docker_operator.Outside.Calls.{Env, ask, act}
use k8s_docker_operator.Outside.Requeue.{again}
use k8s_docker_operator.DeploymentController.Scaling.{
  scale, scale_by, scale_down, remove_newest, victim, desired_replicas, reconcile_deployment,
}
use k8s_docker_operator.DeploymentController.Replicas.{Scaled, scale-Scaled}
use k8s_docker_operator.DeploymentController.Owners.{IsItsOwn, reconcile_deployment-IsItsOwn}
use k8s_docker_operator.DeploymentController.Overrun.{scale-negative}
use k8s_docker_operator.HostController.Ping.{
  ping_delay, ping_tls, ping_and_close, ping_host, observed, check_host,
}
use k8s_docker_operator.HostController.Health.{check_host-settles}
use k8s_docker_operator.Tests.Fixtures.{missing, meta_named, sample_host, env_with, start_world}

abbrev gone_env : Env (Unit {0}) (Unit {0})
gone_env = env_with (err missing) true

abbrev first_letter : ℕ → Unit {0} → ℕ × Unit {0}
first_letter n u = (0, u)

abbrev container_spec : DockerContainerSpec
container_spec = record {
  image = "app";
  container_name = "";
  ports = [];
  command = [];
  env = [];
  restart_policy = "";
  docker_host_ref = "";
  image_pull_secret = "";
  volume_mounts = [];
  services = [];
  network_mode = "";
  env_vars = [];
  secret_volumes = [];
  health_check = none;
  resources = none;
}

abbrev child : String → DockerContainer
child name = record {
  meta = record (meta_named name) { controller = some "d" };
  spec = container_spec;
  status = record { id = ""; state = "running"; health = ""; ipv4 = "" };
}

abbrev deployment_of : ℤ → DockerDeployment
deployment_of n = record {
  meta = meta_named "d";
  spec = record {
    replicas = some n;
    template = record {
      metadata = record { labels = none; annotations = none };
      spec = container_spec;
    };
  };
  status = record { available_replicas = pos 0 };
}

abbrev children : List DockerContainer
children = child "a" ∷ child "b" ∷ child "c" ∷ []

scale-Scaled_example :
    Scaled gone_env first_letter
      (deployment_of (pos 1))
      children
      1
      start_world
      (scale gone_env first_letter (deployment_of (pos 1)) children start_world).1
unfolding scale scale_by scale_down remove_newest victim desired_replicas given act ◌>>=◌ int32 ◌-ℤ◌
scale-Scaled_example =
    scale-Scaled gone_env first_letter (deployment_of (pos 1)) children 1 start_world refl
      (omega arith) (omega arith) refl

scale-negative_example :
    (scale gone_env first_letter (deployment_of (negsuc 0)) children start_world).0 ≢ ok tt
unfolding desired_replicas given
scale-negative_example =
    scale-negative gone_env first_letter (deployment_of (negsuc 0)) children 0 start_world refl
      (omega arith)

reconcile_deployment-IsItsOwn_example :
    All
      (IsItsOwn gone_env first_letter (deployment_of (pos 1)))
      (reconcile_deployment gone_env first_letter
        (λ _ cs. cs)
        (deployment_of (pos 1))
        start_world).1.trace
reconcile_deployment-IsItsOwn_example =
    reconcile_deployment-IsItsOwn gone_env first_letter (deployment_of (pos 1)) (λ _ cs. cs)
      (λ less p cs h. h) start_world refl

check_host-settles_example :
    check_host gone_env (observed sample_host (ok tt)) start_world
    ≡ (ok (again ping_delay), (ping_host gone_env sample_host start_world).1)
unfolding ping_host ping_tls ping_and_close ask act ◌>>=◌
check_host-settles_example = check_host-settles gone_env sample_host (ok tt) start_world refl
