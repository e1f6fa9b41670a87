-- ===== src/ServiceController/Reconcile.antt =====
-- `Reconcile`, `deleteExternalResources` and `findDockerServicesForContainer` of
-- internal/controller/dockerservice/reconciler.go. `sort` is `sort.Strings`.
use k8s_docker_operator.Prelude.{String, List, [], ◌∷◌, Bool, str_eq, if◌then◌else◌}
use k8s_docker_operator.Prelude.Int.{ℤ, pos}
use k8s_docker_operator.Prelude.Text.{◌<>◌, store_key}
use k8s_docker_operator.Exec.{
  Result, ok, err, Exec, pure, raise, lift, attempt, handle, given, ◌>>=◌, ◌>>◌,
}
use k8s_docker_operator.Api.Meta.{Key}
use k8s_docker_operator.Api.Container.{DockerContainer}
use k8s_docker_operator.Api.Service.{DockerService}
use k8s_docker_operator.Outside.Calls.{Env, World, Cluster, ask, act, service_updated}
use k8s_docker_operator.Outside.Requeue.{Outcome, done, again}
use k8s_docker_operator.ContainerController.Reconcile.{try_remove}
use k8s_docker_operator.ServiceController.Targets.{target_addresses}
use k8s_docker_operator.ServiceController.Server.{reconcile_tunnel_server}
use k8s_docker_operator.ServiceController.Host.{get_docker_client}
use k8s_docker_operator.ServiceController.Client.{tunnel_client_name, reconcile_tunnel_client}

abbrev pub finalizer_name : String
finalizer_name = "dockerservice.kdop.io.vn/finalizer"

-- 30 * time.Second and 10 * time.Second
abbrev pub service_delay : ℤ
service_delay = pos 30000000000

abbrev pub missing_delay : ℤ
missing_delay = pos 10000000000

-- The map of hosts to a container on each: the last one met stays.
unfoldable pub host_containers :
    List (String × DockerContainer) → List DockerContainer → List (String × DockerContainer)
host_containers hosts [] = hosts
host_containers hosts (tc ∷ tcs) = host_containers (store_key tc.spec.docker_host_ref tc hosts) tcs

abbrev pub or_empty : {A : Type 0} → Result (List A) → List A
or_empty (ok xs) = xs
or_empty (err e) = []

module _ {W F : Type 0} (env : Env W F) (cluster : Cluster W) where
  abbrev pub container_key : DockerService → Key
  container_key ds = record { namespace = ds.meta.namespace; name = ds.spec.container_ref }

  unfoldable pub select_containers : DockerService → String → Exec (World W) (List DockerContainer)
  select_containers ds selector = do
    parsed ← lift (cluster.as_selector selector)
    ask (cluster.select ds.meta.namespace parsed)

  -- The targets as the clean-up finds them: what fails gives none.
  unfoldable pub remaining_containers : DockerService → Exec (World W) (List DockerContainer)
  remaining_containers ds =
      let by_ref =
        handle (ask (env.containers.get (container_key ds))) (λ c. pure (c ∷ [])) (λ e. pure []) in
      given ds.spec.selector
        (λ selector. handle (select_containers ds selector) pure (λ e. pure []))
        (if str_eq ds.spec.container_ref "" then pure [] else by_ref)

  -- The loop over the hosts; a host that gives no client is passed over.
  unfoldable pub clean_hosts :
      DockerService → List (String × DockerContainer) → Exec (World W) (Unit {0})
  clean_hosts ds [] = pure tt
  clean_hosts ds ((ref, tc) ∷ hosts) =
      let names = tunnel_client_name ds ∷ (ds.meta.name <> "-tunnel") ∷ [] in
      handle (get_docker_client env tc) (λ cli. try_remove env cli names) (λ e. pure tt)
      >> clean_hosts ds hosts

  unfoldable pub delete_external_resources : DockerService → Exec (World W) (Unit {0})
  delete_external_resources ds =
      remaining_containers ds >>= λ containers. clean_hosts ds (host_containers [] containers)

  abbrev pub update_service : DockerService → Exec (World W) DockerService
  update_service ds = act (service_updated ds) (cluster.services.update ds)

  unfoldable pub ensure_finalizer : DockerService → Exec (World W) DockerService
  ensure_finalizer ds =
      if env.libs.contains_finalizer ds.meta finalizer_name
      then pure ds
      else update_service (record ds { meta = env.libs.add_finalizer ds.meta finalizer_name })

  abbrev pub released : DockerService → DockerService
  released ds = record ds { meta = env.libs.remove_finalizer ds.meta finalizer_name }

  unfoldable pub finalize : DockerService → Exec (World W) Outcome
  finalize ds =
      let clean = delete_external_resources ds >> update_service (released ds) >> pure done in
      if env.libs.contains_finalizer ds.meta finalizer_name then clean else pure done

  -- The tunnel client at the host of the first container; its error is logged, but for that of the
  -- Docker client.
  unfoldable pub ensure_client :
      DockerService → String → List DockerContainer → Exec (World W) (Unit {0})
  ensure_client ds url [] = pure tt
  ensure_client ds url (first ∷ rest) = do
    cli ← get_docker_client env first
    attempt (reconcile_tunnel_client env cluster cli ds first url)

  module _ (sort : List String → List String) where
    unfoldable pub serve : List DockerContainer → DockerService → Exec (World W) Outcome
    serve containers ds = do
      addresses ← lift (target_addresses ds.spec.ports containers)
      url ← reconcile_tunnel_server env cluster sort ds addresses
      ensure_client ds url containers
      pure (again service_delay)

    unfoldable pub with_targets : DockerService → List DockerContainer → Exec (World W) Outcome
    with_targets ds containers =
        given ds.meta.deletion_timestamp (λ _. finalize ds)
          (ensure_finalizer ds >>= serve containers)

    unfoldable pub by_reference : DockerService → Exec (World W) Outcome
    by_reference ds =
        handle (ask (env.containers.get (container_key ds))) (λ c. with_targets ds (c ∷ []))
          (λ e. if e.not_found then pure (again missing_delay) else raise e)

    unfoldable pub reconcile_service : DockerService → Exec (World W) Outcome
    reconcile_service ds =
        given ds.spec.selector (λ selector. select_containers ds selector >>= with_targets ds)
          (if str_eq ds.spec.container_ref "" then pure done else by_reference ds)

    unfoldable pub reconcile : Key → Exec (World W) Outcome
    reconcile key =
        handle (ask (cluster.services.get key)) reconcile_service
          (λ e. if e.not_found then pure done else raise e)

  -- Whether a change of the container is one for the service.
  abbrev pub selects : DockerContainer → DockerService → Bool
  selects c ds =
      given ds.spec.selector
        (λ selector. elim (cluster.as_selector selector) [
          | ok parsed ↦ cluster.matches parsed c.meta.labels
          | err _ ↦ Bool.false
        ])
        Bool.false

  unfoldable pub selecting : DockerContainer → List DockerService → List Key
  selecting c [] = []
  selecting c (ds ∷ services) =
      let rest = selecting c services in
      if selects c ds
      then record { namespace = ds.meta.namespace; name = ds.meta.name } ∷ rest
      else rest

  unfoldable pub find_docker_services_for_container : DockerContainer → Exec (World W) (List Key)
  find_docker_services_for_container c =
      handle (ask (cluster.services.list c.meta.namespace))
        (λ services. pure (selecting c services)) (λ e. pure [])
