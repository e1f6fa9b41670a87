-- ===== src/Api/Copies/Deployment.antt =====
-- The copies of DockerDeployment in api/v1alpha1/zz_generated.deepcopy.go.
use k8s_docker_operator.Prelude.{ℕ, refl, String, Option, none, List}
use k8s_docker_operator.Prelude.Int.{ℤ}
use k8s_docker_operator.Api.Copies.Memory.{Copier, Fields, ◌⊗◌, each, at, struct}
use k8s_docker_operator.Api.Copies.Cells.{
  Holds, Cell, cell_of, TemplateMetaAt, DockerContainerTemplateAt, DockerContainerSpecAt,
  DockerDeploymentSpecAt, DockerDeploymentStatusAt, ObjectAt, ListAt,
}
use k8s_docker_operator.Api.Copies.Leaf.{integer, labels}
use k8s_docker_operator.Api.Copies.Container.{
  DockerContainerSpecView, container_spec_into, container_spec_into-IsDeep,
}
use k8s_docker_operator.Api.Copies.Resource.{ObjectView, ListView, object_into, list_into}
use k8s_docker_operator.Api.Copies.Deep.{
  IsDeep, plain-IsDeep, ⊗-IsDeep, each-IsDeep, at-IsDeep, struct-IsDeep,
}

abbrev with_meta : TemplateMetaAt → (Option ℕ × (Option ℕ)) → TemplateMetaAt
with_meta s (labels, (annotations)) = record s { labels = labels; annotations = annotations }

abbrev meta_fields : Fields TemplateMetaAt (Option ℕ × (Option ℕ)) TemplateMetaAt
meta_fields = record {
  get = λ s. (s.labels, (s.annotations));
  rest = λ s. with_meta s (none, (none));
  put = with_meta;
  get-put = λ s a. refl;
  rest-put = λ s a. refl;
}

abbrev template_fields :
    Fields DockerContainerTemplateAt (TemplateMetaAt × DockerContainerSpecAt) (Unit {0})
template_fields = record {
  get = λ s. (s.metadata, s.spec);
  rest = λ s. tt;
  put = λ s (meta, spec). record { metadata = meta; spec = spec };
  get-put = λ s a. refl;
  rest-put = λ s a. refl;
}

abbrev spec_fields :
    Fields DockerDeploymentSpecAt (Option ℕ × (Option ℕ × DockerContainerTemplateAt)) (Unit {0})
spec_fields = record {
  get = λ s. (s.replicas, (s.selector, s.template));
  rest = λ s. tt;
  put = λ s (replicas, (selector, template)). record {
    replicas = replicas;
    selector = selector;
    template = template;
  };
  get-put = λ s a. refl;
  rest-put = λ s a. refl;
}

abbrev status_fields : Fields DockerDeploymentStatusAt (Option ℕ) ℤ
status_fields = record {
  get = λ s. s.conditions;
  rest = λ s. s.available_replicas;
  put = λ s p. record s { conditions = p };
  get-put = λ s a. refl;
  rest-put = λ s a. refl;
}

-- What the structs stand for.
abbrev TemplateMetaView : Type 0
TemplateMetaView =
    TemplateMetaAt × (Option (List (String × String)) × Option (List (String × String)))

abbrev TemplateView : Type 0
TemplateView = Unit {0} × (TemplateMetaView × DockerContainerSpecView)

abbrev DeploymentSpecView : Type 0 → Type 0
DeploymentSpecView T = Unit {0} × (Option ℤ × (Option T × TemplateView))

abbrev DeploymentStatusView : Type 0 → Type 0
DeploymentStatusView D = ℤ × Option (List D)

module _ {M L S C X : Type 0} where
  abbrev template_meta_into : Copier (Cell M L S C X) TemplateMetaAt TemplateMetaView
  template_meta_into = struct meta_fields (labels ⊗ labels)

  abbrev template_meta_copy : Copier (Cell M L S C X) (Option ℕ) (Option TemplateMetaView)
  template_meta_copy = at (cell_of Holds.template_meta) template_meta_into

  abbrev template_into : Copier (Cell M L S C X) DockerContainerTemplateAt TemplateView
  template_into = struct template_fields (template_meta_into ⊗ container_spec_into)

  abbrev template_copy : Copier (Cell M L S C X) (Option ℕ) (Option TemplateView)
  template_copy = at (cell_of Holds.template) template_into

  template_into-IsDeep : IsDeep template_into
  template_into-IsDeep =
      let flat = at-IsDeep (cell_of Holds.labels) plain-IsDeep in
      struct-IsDeep template_fields
        (⊗-IsDeep (struct-IsDeep meta_fields (⊗-IsDeep flat flat)) container_spec_into-IsDeep)

  -- The copies of metav1.LabelSelector and metav1.Condition.
  module _ {T D : Type 0} (selector : Copier (Cell M L S C X) S T)
      (condition : Copier (Cell M L S C X) C D) where
    abbrev deployment_spec_into :
        Copier (Cell M L S C X) DockerDeploymentSpecAt (DeploymentSpecView T)
    deployment_spec_into =
        struct spec_fields (integer ⊗ at (cell_of Holds.label_selector) selector ⊗ template_into)

    abbrev deployment_spec_copy : Copier (Cell M L S C X) (Option ℕ) (Option (DeploymentSpecView T))
    deployment_spec_copy = at (cell_of Holds.deployment_spec) deployment_spec_into

    abbrev deployment_status_into :
        Copier (Cell M L S C X) DockerDeploymentStatusAt (DeploymentStatusView D)
    deployment_status_into = struct status_fields (at (cell_of Holds.conditions) (each condition))

    abbrev deployment_status_copy :
        Copier (Cell M L S C X) (Option ℕ) (Option (DeploymentStatusView D))
    deployment_status_copy = at (cell_of Holds.deployment_status) deployment_status_into

    pub deployment_spec_into-IsDeep : IsDeep selector → IsDeep deployment_spec_into
    deployment_spec_into-IsDeep deep_selector = struct-IsDeep spec_fields (
        ⊗-IsDeep (at-IsDeep (cell_of Holds.integer) plain-IsDeep)
          (⊗-IsDeep (at-IsDeep (cell_of Holds.label_selector) deep_selector) template_into-IsDeep))

    pub deployment_status_into-IsDeep : IsDeep condition → IsDeep deployment_status_into
    deployment_status_into-IsDeep deep_condition =
        struct-IsDeep status_fields
          (at-IsDeep (cell_of Holds.conditions) (each-IsDeep deep_condition))

    -- The methods that need the copies of metav1.ObjectMeta and metav1.ListMeta.
    module _ {V W : Type 0} (meta : Copier (Cell M L S C X) M V)
        (list_meta : Copier (Cell M L S C X) L W) where
      abbrev DeploymentView : Type 0
      DeploymentView = ObjectView V (DeploymentSpecView T) (DeploymentStatusView D)

      abbrev deployment_into :
          Copier
            (Cell M L S C X)
            (ObjectAt M DockerDeploymentSpecAt DockerDeploymentStatusAt)
            DeploymentView
      deployment_into = object_into meta deployment_spec_into deployment_status_into

      abbrev deployment_copy : Copier (Cell M L S C X) (Option ℕ) (Option DeploymentView)
      deployment_copy = at (cell_of Holds.deployment) deployment_into

      abbrev deployment_list_into : Copier (Cell M L S C X) (ListAt L) (ListView W DeploymentView)
      deployment_list_into = list_into list_meta (cell_of Holds.deployments) deployment_into

      abbrev pub deployment_list_copy :
          Copier (Cell M L S C X) (Option ℕ) (Option (ListView W DeploymentView))
      deployment_list_copy = at (cell_of Holds.resource_list) deployment_list_into
