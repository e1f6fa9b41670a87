-- ===== src/Tests/Container.antt =====
-- The theorems of the container controller at a small container.
use k8s_docker_operator.Prelude.{◌↔◌, ◌⊎◌, All, ◌≡◌, [], ◌∷◌, some, none}
use k8s_docker_operator.Prelude.Int.{pos}
use k8s_docker_operator.Prelude.Text.{codes, trim_space, cut_suffix}
use k8s_docker_operator.JobController.Memory
use k8s_docker_operator.JobController.Memory.{split_unit}
use k8s_docker_operator.ContainerController.Limits.{parse_memory_string-agrees}
use k8s_docker_operator.Api.Container.{DockerContainerSpec}
use k8s_docker_operator.Outside.Docker.{Config, HostConfig, Inspected}
use k8s_docker_operator.ContainerController.Drift.{
  all_digits, parse_memory_string, build_docker_resources, needs_recreate,
}
use k8s_docker_operator.ContainerController.Exact.{Occurs, needs_recreate-exact}
use k8s_docker_operator.Exec.{given}
use k8s_docker_operator.Tests.Fixtures.{libraries}
use k8s_docker_operator.Prelude.{true, false, refl}

abbrev pub spec : DockerContainerSpec
spec = record {
  image = "app";
  container_name = "c";
  ports = [];
  command = "run" ∷ [];
  env = "B=2" ∷ "A=1" ∷ [];
  restart_policy = "always";
  docker_host_ref = "";
  image_pull_secret = "";
  volume_mounts = [];
  services = [];
  network_mode = "";
  env_vars = [];
  secret_volumes = [];
  health_check = none;
  resources = none;
}

abbrev pub config : Config
config = record {
  image = "app";
  cmd = "run" ∷ [];
  env = "B=2" ∷ "A=1" ∷ "PATH=/bin" ∷ [];
  healthcheck = none;
  exposed_ports = [];
}

abbrev pub host_config : HostConfig
host_config = record {
  restart_policy = "always";
  binds = [];
  resources = record { nano_cpus = pos 0; memory = pos 0 };
  port_bindings = [];
  network_mode = "";
}

abbrev pub inspected : Inspected
inspected = record {
  id = "id1";
  state = none;
  config = some config;
  host_config = some host_config;
  networks = none;
}

needs_recreate-exact_example :
    (needs_recreate (libraries true) (λ xs. xs) inspected spec ≡ false)
    ↔ given inspected.config
        (λ c.
          (c.image ≡ "app")
          × ((spec.command ≡ []) ⊎ (c.cmd ≡ spec.command))
          × All (λ s. Occurs s c.env) spec.env
          × given inspected.host_config
              (λ host.
                ((spec.restart_policy ≡ "")
                  ⊎ ((libraries true).to_lower host.restart_policy
                      ≡ (libraries true).to_lower spec.restart_policy))
                × given spec.resources
                    (λ r. build_docker_resources (libraries true) r ≡ host.resources)
                    Unit)
              Unit)
        Unit
needs_recreate-exact_example =
    needs_recreate-exact (libraries true) (λ xs. xs) (λ P xs. (λ h. h, λ h. h)) spec inspected

parse_memory_string-agrees_example :
    parse_memory_string (libraries true) (codes "512m")
    ≡ Memory.parse_memory_string (libraries true) (codes "512m")
unfolding all_digits split_unit trim_space cut_suffix
parse_memory_string-agrees_example = parse_memory_string-agrees (libraries true) (codes "512m") refl
