-- ===== src/Tests/Fresh.antt =====
-- A container created in the small outside of Fixtures, and what its inspections say of the spec.
use k8s_docker_operator.Prelude.{true, refl, All}
use k8s_docker_operator.Exec.{err}
use k8s_docker_operator.Api.Container.{DockerContainer}
use k8s_docker_operator.Outside.Calls.{Env}
use k8s_docker_operator.ContainerController.Create.{create_and_start_container}
use k8s_docker_operator.ContainerController.Fresh.{IsLasting, create_and_start_container-IsLasting}
use k8s_docker_operator.Tests.Fixtures.{env_with, start_world, missing, meta_named}
use k8s_docker_operator.Tests.Container.{spec}

abbrev pub fresh : DockerContainer
fresh = record {
  meta = meta_named "cr";
  spec = spec;
  status = record { id = ""; state = ""; health = ""; ipv4 = "" };
}

abbrev env : Env (Unit {0}) (Unit {0})
env = env_with (err missing) true

create_and_start_container-IsLasting_example :
    All
      (IsLasting env.libs (λ xs. xs) spec)
      (create_and_start_container env "local" fresh start_world).1.trace
create_and_start_container-IsLasting_example =
    create_and_start_container-IsLasting env (λ xs. xs) (λ p xs h. h) fresh refl "local" start_world
      tt
