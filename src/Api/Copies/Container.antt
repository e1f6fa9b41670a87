-- ===== src/Api/Copies/Container.antt =====
-- The copies of DockerContainer and DockerHost, of their lists, specs and statuses in
-- api/v1alpha1/deepcopy.go.
use k8s_docker_operator.Prelude.{ℕ, refl, String, Option, none, List}
use k8s_docker_operator.Api.Container.{
  VolumeMount, ServicePort, SecretVolume, ResourceRequirements, DockerContainerStatus,
}
use k8s_docker_operator.Api.Host.{DockerHostSpec, DockerHostStatus}
use k8s_docker_operator.Api.Copies.Memory.{Copier, Fields, plain, ◌⊗◌, at, struct}
use k8s_docker_operator.Api.Copies.Cells.{
  Holds, Cell, cell_of, DockerContainerSpecAt, ObjectAt, ListAt,
}
use k8s_docker_operator.Api.Copies.Leaf.{
  EnvVarView, HealthCheckConfigView, strings, mounts, ports, volumes, env_vars, health_copy,
  resources_copy, env_vars-IsDeep, health_copy-IsDeep,
}
use k8s_docker_operator.Api.Copies.Resource.{ObjectView, ListView, object_into, list_into}
use k8s_docker_operator.Api.Copies.Deep.{IsDeep, plain-IsDeep, ⊗-IsDeep, at-IsDeep, struct-IsDeep}

-- The pointers of a spec, in the order in which they are copied: ports, command, env, volume mounts,
-- services, env vars, secret volumes, health check, resources.
abbrev Pointers : Type 0
Pointers =
    Option ℕ
    × (Option ℕ
        × (Option ℕ × (Option ℕ × (Option ℕ × (Option ℕ × (Option ℕ × (Option ℕ × (Option ℕ))))))))

abbrev with_pointers : DockerContainerSpecAt → Pointers → DockerContainerSpecAt
with_pointers s
      (
        ports,
        (command, (env, (mounts, (services, (env_vars, (volumes, (health, (resources)))))))),
      ) =
    record s {
      ports = ports;
      command = command;
      env = env;
      volume_mounts = mounts;
      services = services;
      env_vars = env_vars;
      secret_volumes = volumes;
      health_check = health;
      resources = resources;
    }

abbrev spec_fields : Fields DockerContainerSpecAt Pointers DockerContainerSpecAt
spec_fields = record {
  get = λ s. (
    s.ports,
    (
      s.command,
      (
        s.env,
        (
          s.volume_mounts,
          (s.services, (s.env_vars, (s.secret_volumes, (s.health_check, (s.resources))))),
        ),
      ),
    ),
  );
  rest =
      λ s. with_pointers s (none, (none, (none, (none, (none, (none, (none, (none, (none)))))))));
  put = with_pointers;
  get-put = λ s a. refl;
  rest-put = λ s a. refl;
}

-- What a spec stands for: its other fields and, in the same order, what its pointers lead to.
abbrev pub DockerContainerSpecView : Type 0
DockerContainerSpecView =
    DockerContainerSpecAt
    × (Option (List String)
        × (Option (List String)
            × (Option (List String)
                × (Option (List VolumeMount)
                    × (Option (List ServicePort)
                        × (Option (List EnvVarView)
                            × (Option (List SecretVolume)
                                × (Option HealthCheckConfigView
                                    × (Option ResourceRequirements)))))))))

module _ {M L S C X : Type 0} where
  abbrev pub container_spec_into :
      Copier (Cell M L S C X) DockerContainerSpecAt DockerContainerSpecView
  container_spec_into = struct spec_fields (
      strings ⊗ strings ⊗ strings ⊗ mounts ⊗ ports ⊗ env_vars ⊗ volumes ⊗ health_copy
      ⊗ resources_copy)

  abbrev container_spec_copy : Copier (Cell M L S C X) (Option ℕ) (Option DockerContainerSpecView)
  container_spec_copy = at (cell_of Holds.container_spec) container_spec_into

  abbrev container_status_copy : Copier (Cell M L S C X) (Option ℕ) (Option DockerContainerStatus)
  container_status_copy = at (cell_of Holds.container_status) plain

  abbrev host_spec_copy : Copier (Cell M L S C X) (Option ℕ) (Option DockerHostSpec)
  host_spec_copy = at (cell_of Holds.host_spec) plain

  abbrev host_status_copy : Copier (Cell M L S C X) (Option ℕ) (Option DockerHostStatus)
  host_status_copy = at (cell_of Holds.host_status) plain

  pub container_spec_into-IsDeep : IsDeep container_spec_into
  container_spec_into-IsDeep =
      let flat = at-IsDeep (cell_of Holds.strings) plain-IsDeep in
      struct-IsDeep spec_fields (
        ⊗-IsDeep flat (
          ⊗-IsDeep flat (
            ⊗-IsDeep flat (
              ⊗-IsDeep (at-IsDeep (cell_of Holds.mounts) plain-IsDeep) (
                ⊗-IsDeep (at-IsDeep (cell_of Holds.ports) plain-IsDeep) (
                  ⊗-IsDeep env_vars-IsDeep (
                    ⊗-IsDeep (at-IsDeep (cell_of Holds.volumes) plain-IsDeep) (
                      ⊗-IsDeep health_copy-IsDeep
                        (at-IsDeep (cell_of Holds.resources) plain-IsDeep)))))))))

  -- The methods that need the copies of metav1.ObjectMeta and metav1.ListMeta.
  module _ {V W : Type 0} (meta : Copier (Cell M L S C X) M V)
      (list_meta : Copier (Cell M L S C X) L W) where
    abbrev ContainerView : Type 0
    ContainerView = ObjectView V DockerContainerSpecView DockerContainerStatus

    abbrev HostView : Type 0
    HostView = ObjectView V DockerHostSpec DockerHostStatus

    abbrev container_into :
        Copier
          (Cell M L S C X)
          (ObjectAt M DockerContainerSpecAt DockerContainerStatus)
          ContainerView
    container_into = object_into meta container_spec_into plain

    abbrev container_copy : Copier (Cell M L S C X) (Option ℕ) (Option ContainerView)
    container_copy = at (cell_of Holds.container) container_into

    abbrev container_list_into : Copier (Cell M L S C X) (ListAt L) (ListView W ContainerView)
    container_list_into = list_into list_meta (cell_of Holds.containers) container_into

    abbrev pub container_list_copy :
        Copier (Cell M L S C X) (Option ℕ) (Option (ListView W ContainerView))
    container_list_copy = at (cell_of Holds.resource_list) container_list_into

    abbrev host_into : Copier (Cell M L S C X) (ObjectAt M DockerHostSpec DockerHostStatus) HostView
    host_into = object_into meta plain plain

    abbrev host_copy : Copier (Cell M L S C X) (Option ℕ) (Option HostView)
    host_copy = at (cell_of Holds.host) host_into

    abbrev host_list_into : Copier (Cell M L S C X) (ListAt L) (ListView W HostView)
    host_list_into = list_into list_meta (cell_of Holds.hosts) host_into

    abbrev pub host_list_copy : Copier (Cell M L S C X) (Option ℕ) (Option (ListView W HostView))
    host_list_copy = at (cell_of Holds.resource_list) host_list_into
