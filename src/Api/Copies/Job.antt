-- ===== src/Api/Copies/Job.antt =====
-- The copies of DockerJob, its lists, specs and statuses in api/v1alpha1/deepcopy.go.
use k8s_docker_operator.Prelude.{ℕ, refl, String, Option, none, List}
use k8s_docker_operator.Prelude.Int.{ℤ}
use k8s_docker_operator.Api.Container.{VolumeMount, SecretVolume, ResourceRequirements}
use k8s_docker_operator.Api.Copies.Memory.{Copier, Fields, ◌⊗◌, at, if_set, struct}
use k8s_docker_operator.Api.Copies.Cells.{
  Holds, Cell, cell_of, DockerJobSpecAt, DockerJobStatusAt, ObjectAt, ListAt,
}
use k8s_docker_operator.Api.Copies.Leaf.{
  EnvVarView, strings, mounts, volumes, integer, env_vars, resources_copy, env_vars-IsDeep,
}
use k8s_docker_operator.Api.Copies.Resource.{ObjectView, ListView, object_into, list_into}
use k8s_docker_operator.Api.Copies.Deep.{
  IsDeep, plain-IsDeep, ⊗-IsDeep, at-IsDeep, if_set-IsDeep, struct-IsDeep,
}

abbrev with_spec :
    DockerJobSpecAt
    → (Option ℕ
        × (Option ℕ
            × (Option ℕ
                × (Option ℕ × (Option ℕ × (Option ℕ × (Option ℕ × (Option ℕ × (Option ℕ)))))))))
    → DockerJobSpecAt
with_spec s
      (
        command,
        (
          args,
          (
            env,
            (
              env_vars,
              (
                volume_mounts,
                (
                  secret_volumes,
                  (active_deadline_seconds, (ttl_seconds_after_finished, (resources))),
                ),
              ),
            ),
          ),
        ),
      ) =
    record s {
      command = command;
      args = args;
      env = env;
      env_vars = env_vars;
      volume_mounts = volume_mounts;
      secret_volumes = secret_volumes;
      active_deadline_seconds = active_deadline_seconds;
      ttl_seconds_after_finished = ttl_seconds_after_finished;
      resources = resources;
    }

abbrev spec_fields :
    Fields DockerJobSpecAt
      (Option ℕ
        × (Option ℕ
            × (Option ℕ
                × (Option ℕ × (Option ℕ × (Option ℕ × (Option ℕ × (Option ℕ × (Option ℕ)))))))))
      DockerJobSpecAt
spec_fields = record {
  get = λ s. (
    s.command,
    (
      s.args,
      (
        s.env,
        (
          s.env_vars,
          (
            s.volume_mounts,
            (
              s.secret_volumes,
              (s.active_deadline_seconds, (s.ttl_seconds_after_finished, (s.resources))),
            ),
          ),
        ),
      ),
    ),
  );
  rest = λ s. with_spec s (none, (none, (none, (none, (none, (none, (none, (none, (none)))))))));
  put = with_spec;
  get-put = λ s a. refl;
  rest-put = λ s a. refl;
}

abbrev with_status : DockerJobStatusAt → (Option ℕ × (Option ℕ × (Option ℕ))) → DockerJobStatusAt
with_status s (start_time, (completion_time, (exit_code))) = record s {
  start_time = start_time;
  completion_time = completion_time;
  exit_code = exit_code;
}

abbrev status_fields :
    Fields DockerJobStatusAt (Option ℕ × (Option ℕ × (Option ℕ))) DockerJobStatusAt
status_fields = record {
  get = λ s. (s.start_time, (s.completion_time, (s.exit_code)));
  rest = λ s. with_status s (none, (none, (none)));
  put = with_status;
  get-put = λ s a. refl;
  rest-put = λ s a. refl;
}

-- What a spec and a status stand for: their other fields and, in the order of the code, what their
-- pointers lead to.
abbrev DockerJobSpecView : Type 0
DockerJobSpecView =
    DockerJobSpecAt
    × (Option (List String)
        × (Option (List String)
            × (Option (List String)
                × (Option (List EnvVarView)
                    × (Option (List VolumeMount)
                        × (Option (List SecretVolume)
                            × (Option ℤ × (Option ℤ × (Option ResourceRequirements)))))))))

abbrev DockerJobStatusView : Type 0 → Type 0
DockerJobStatusView T = DockerJobStatusAt × (Option T × (Option T × (Option ℤ)))

module _ {M L S C X : Type 0} where
  abbrev job_spec_into : Copier (Cell M L S C X) DockerJobSpecAt DockerJobSpecView
  job_spec_into = struct spec_fields (
      strings ⊗ strings ⊗ strings ⊗ env_vars ⊗ mounts ⊗ volumes ⊗ integer ⊗ integer
      ⊗ resources_copy)

  abbrev job_spec_copy : Copier (Cell M L S C X) (Option ℕ) (Option DockerJobSpecView)
  job_spec_copy = at (cell_of Holds.job_spec) job_spec_into

  pub job_spec_into-IsDeep : IsDeep job_spec_into
  job_spec_into-IsDeep =
      let flat = at-IsDeep (cell_of Holds.strings) plain-IsDeep in
      let number = at-IsDeep (cell_of Holds.integer) plain-IsDeep in
      struct-IsDeep spec_fields (
        ⊗-IsDeep flat (
          ⊗-IsDeep flat (
            ⊗-IsDeep flat (
              ⊗-IsDeep env_vars-IsDeep (
                ⊗-IsDeep (at-IsDeep (cell_of Holds.mounts) plain-IsDeep) (
                  ⊗-IsDeep (at-IsDeep (cell_of Holds.volumes) plain-IsDeep) (
                    ⊗-IsDeep number
                      (⊗-IsDeep number (at-IsDeep (cell_of Holds.resources) plain-IsDeep)))))))))

  -- `time` is the copy that metav1.Time makes for a pointer that is not nil.
  module _ {T : Type 0} (time : Copier (Cell M L S C X) ℕ T) where
    abbrev job_status_into : Copier (Cell M L S C X) DockerJobStatusAt (DockerJobStatusView T)
    job_status_into = struct status_fields (if_set time ⊗ if_set time ⊗ integer)

    abbrev job_status_copy : Copier (Cell M L S C X) (Option ℕ) (Option (DockerJobStatusView T))
    job_status_copy = at (cell_of Holds.job_status) job_status_into

    pub job_status_into-IsDeep : IsDeep time → IsDeep job_status_into
    job_status_into-IsDeep deep_time = struct-IsDeep status_fields (
        ⊗-IsDeep (if_set-IsDeep deep_time)
          (⊗-IsDeep (if_set-IsDeep deep_time) (at-IsDeep (cell_of Holds.integer) plain-IsDeep)))

    -- The methods that need the copies of metav1.ObjectMeta and metav1.ListMeta.
    module _ {V W : Type 0} (meta : Copier (Cell M L S C X) M V)
        (list_meta : Copier (Cell M L S C X) L W) where
      abbrev JobView : Type 0
      JobView = ObjectView V DockerJobSpecView (DockerJobStatusView T)

      abbrev job_into :
          Copier (Cell M L S C X) (ObjectAt M DockerJobSpecAt DockerJobStatusAt) JobView
      job_into = object_into meta job_spec_into job_status_into

      abbrev job_copy : Copier (Cell M L S C X) (Option ℕ) (Option JobView)
      job_copy = at (cell_of Holds.job) job_into

      abbrev job_list_into : Copier (Cell M L S C X) (ListAt L) (ListView W JobView)
      job_list_into = list_into list_meta (cell_of Holds.jobs) job_into

      abbrev pub job_list_copy : Copier (Cell M L S C X) (Option ℕ) (Option (ListView W JobView))
      job_list_copy = at (cell_of Holds.resource_list) job_list_into
