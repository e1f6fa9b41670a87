-- ===== src/Api/Copies/Apart.antt =====
-- The copies of lists of containers, hosts, jobs and deployments share nothing with their originals.
use k8s_docker_operator.Prelude.{ℕ}
use k8s_docker_operator.Api.Copies.Memory.{Copier}
use k8s_docker_operator.Api.Copies.Cells.{Holds, Cell, cell_of}
use k8s_docker_operator.Api.Copies.Deep.{IsDeep, plain-IsDeep}
use k8s_docker_operator.Api.Copies.Resource.{object_into-IsDeep, list_into-IsDeep}
use k8s_docker_operator.Api.Copies.Container.{
  container_list_copy, host_list_copy, container_spec_into-IsDeep,
}
use k8s_docker_operator.Api.Copies.Job.{job_list_copy, job_spec_into-IsDeep, job_status_into-IsDeep}
use k8s_docker_operator.Api.Copies.Deployment.{
  deployment_list_copy, deployment_spec_into-IsDeep, deployment_status_into-IsDeep,
}

module _ {M L S C X V W U D T : Type 0} {meta : Copier (Cell M L S C X) M V}
    {list_meta : Copier (Cell M L S C X) L W} {selector : Copier (Cell M L S C X) S U}
    {condition : Copier (Cell M L S C X) C D} {time : Copier (Cell M L S C X) ℕ T}
    (deep_meta : IsDeep meta) (deep_list_meta : IsDeep list_meta) (deep_selector : IsDeep selector)
    (deep_condition : IsDeep condition) (deep_time : IsDeep time) where
  -- When the copies of the types of Kubernetes are deep, then so are the four copies of a list: what the list
  -- stands for is not changed by new cells; the copy is made of new cells and reads the same, with whatever in place
  -- of the cells that were there before.
  pub list_copies-IsDeep :
      IsDeep (container_list_copy meta list_meta)
      × IsDeep (host_list_copy meta list_meta)
      × IsDeep (job_list_copy time meta list_meta)
      × IsDeep (deployment_list_copy selector condition meta list_meta)
  list_copies-IsDeep = (
    list_into-IsDeep (cell_of Holds.resource_list) (cell_of Holds.containers) deep_list_meta
        (object_into-IsDeep deep_meta container_spec_into-IsDeep plain-IsDeep),
    list_into-IsDeep (cell_of Holds.resource_list) (cell_of Holds.hosts) deep_list_meta
        (object_into-IsDeep deep_meta plain-IsDeep plain-IsDeep),
    list_into-IsDeep (cell_of Holds.resource_list) (cell_of Holds.jobs) deep_list_meta
        (object_into-IsDeep deep_meta job_spec_into-IsDeep (job_status_into-IsDeep time deep_time)),
    list_into-IsDeep (cell_of Holds.resource_list) (cell_of Holds.deployments) deep_list_meta (
        object_into-IsDeep deep_meta (deployment_spec_into-IsDeep selector condition deep_selector)
          (deployment_status_into-IsDeep selector condition deep_condition)),
  )
