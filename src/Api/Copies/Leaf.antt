-- ===== src/Api/Copies/Leaf.antt =====
-- The copies of the structs that others have in their fields, and of what slices hold: the pointer methods
-- `DeepCopy` are named `_copy`, a method `DeepCopyInto` ends in `_into`.
use k8s_docker_operator.Prelude.{ℕ, refl, String, Option, none, List}
use k8s_docker_operator.Prelude.Int.{ℤ}
use k8s_docker_operator.Api.Container.{
  VolumeMount, ServicePort, SecretVolume, ResourceRequirements, SecretKeySelector,
}
use k8s_docker_operator.Api.Copies.Memory.{Copier, Fields, plain, each, at, struct}
use k8s_docker_operator.Api.Copies.Cells.{
  Holds, Cell, cell_of, EnvVarSourceAt, EnvVarAt, HealthCheckConfigAt,
}
use k8s_docker_operator.Api.Copies.Deep.{
  IsDeep, plain-IsDeep, each-IsDeep, at-IsDeep, struct-IsDeep,
}

-- What the structs stand for: their fields that are no pointers, and what the pointers lead to.
abbrev EnvVarSourceView : Type 0
EnvVarSourceView = EnvVarSourceAt × Option SecretKeySelector

abbrev pub EnvVarView : Type 0
EnvVarView = EnvVarAt × Option EnvVarSourceView

abbrev pub HealthCheckConfigView : Type 0
HealthCheckConfigView = HealthCheckConfigAt × Option (List String)

abbrev source_fields : Fields EnvVarSourceAt (Option ℕ) EnvVarSourceAt
source_fields = record {
  get = λ s. s.secret_key_ref;
  rest = λ s. record s { secret_key_ref = none };
  put = λ s p. record s { secret_key_ref = p };
  get-put = λ s p. refl;
  rest-put = λ s p. refl;
}

abbrev env_var_fields : Fields EnvVarAt (Option ℕ) EnvVarAt
env_var_fields = record {
  get = λ s. s.value_from;
  rest = λ s. record s { value_from = none };
  put = λ s p. record s { value_from = p };
  get-put = λ s p. refl;
  rest-put = λ s p. refl;
}

abbrev health_fields : Fields HealthCheckConfigAt (Option ℕ) HealthCheckConfigAt
health_fields = record {
  get = λ s. s.test;
  rest = λ s. record s { test = none };
  put = λ s p. record s { test = p };
  get-put = λ s p. refl;
  rest-put = λ s p. refl;
}

module _ {M L S C X : Type 0} where
  -- Pointers to what has no pointers, and slices of it.
  abbrev pub resources_copy : Copier (Cell M L S C X) (Option ℕ) (Option ResourceRequirements)
  resources_copy = at (cell_of Holds.resources) plain

  abbrev key_copy : Copier (Cell M L S C X) (Option ℕ) (Option SecretKeySelector)
  key_copy = at (cell_of Holds.key) plain

  abbrev mount_copy : Copier (Cell M L S C X) (Option ℕ) (Option VolumeMount)
  mount_copy = at (cell_of Holds.mount) plain

  abbrev port_copy : Copier (Cell M L S C X) (Option ℕ) (Option ServicePort)
  port_copy = at (cell_of Holds.port) plain

  abbrev volume_copy : Copier (Cell M L S C X) (Option ℕ) (Option SecretVolume)
  volume_copy = at (cell_of Holds.volume) plain

  abbrev pub strings : Copier (Cell M L S C X) (Option ℕ) (Option (List String))
  strings = at (cell_of Holds.strings) plain

  abbrev pub mounts : Copier (Cell M L S C X) (Option ℕ) (Option (List VolumeMount))
  mounts = at (cell_of Holds.mounts) plain

  abbrev pub ports : Copier (Cell M L S C X) (Option ℕ) (Option (List ServicePort))
  ports = at (cell_of Holds.ports) plain

  abbrev pub volumes : Copier (Cell M L S C X) (Option ℕ) (Option (List SecretVolume))
  volumes = at (cell_of Holds.volumes) plain

  abbrev pub integer : Copier (Cell M L S C X) (Option ℕ) (Option ℤ)
  integer = at (cell_of Holds.integer) plain

  -- A map from strings to strings.
  abbrev pub labels : Copier (Cell M L S C X) (Option ℕ) (Option (List (String × String)))
  labels = at (cell_of Holds.labels) plain

  abbrev source_into : Copier (Cell M L S C X) EnvVarSourceAt EnvVarSourceView
  source_into = struct source_fields key_copy

  abbrev source_copy : Copier (Cell M L S C X) (Option ℕ) (Option EnvVarSourceView)
  source_copy = at (cell_of Holds.source) source_into

  abbrev env_var_into : Copier (Cell M L S C X) EnvVarAt EnvVarView
  env_var_into = struct env_var_fields source_copy

  abbrev env_var_copy : Copier (Cell M L S C X) (Option ℕ) (Option EnvVarView)
  env_var_copy = at (cell_of Holds.env_var) env_var_into

  abbrev pub env_vars : Copier (Cell M L S C X) (Option ℕ) (Option (List EnvVarView))
  env_vars = at (cell_of Holds.env_vars) (each env_var_into)

  abbrev health_into : Copier (Cell M L S C X) HealthCheckConfigAt HealthCheckConfigView
  health_into = struct health_fields strings

  abbrev pub health_copy : Copier (Cell M L S C X) (Option ℕ) (Option HealthCheckConfigView)
  health_copy = at (cell_of Holds.health) health_into

  env_var_into-IsDeep : IsDeep env_var_into
  env_var_into-IsDeep = struct-IsDeep env_var_fields (
      at-IsDeep (cell_of Holds.source)
        (struct-IsDeep source_fields (at-IsDeep (cell_of Holds.key) plain-IsDeep)))

  pub env_vars-IsDeep : IsDeep env_vars
  env_vars-IsDeep = at-IsDeep (cell_of Holds.env_vars) (each-IsDeep env_var_into-IsDeep)

  pub health_copy-IsDeep : IsDeep health_copy
  health_copy-IsDeep =
      at-IsDeep (cell_of Holds.health)
        (struct-IsDeep health_fields (at-IsDeep (cell_of Holds.strings) plain-IsDeep))
