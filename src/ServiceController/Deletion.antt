-- ===== src/ServiceController/Deletion.antt =====
-- A service that names a container and is being deleted.
use k8s_docker_operator.Prelude.{
  ◌≡◌, ◌≢◌, ◌⊎◌, inl, inr, refl, ap, ◌∙◌, String, List, [], ◌∷◌, All, some, none, Bool, true, false,
  if◌then◌else◌,
}
use k8s_docker_operator.Prelude.Int.{ℤ}
use k8s_docker_operator.Prelude.Text.{◌<>◌, str_ne}
use k8s_docker_operator.Exec.{
  Error, Exec, Result, ok, err, branch, handle, raise, given, pure, ◌>>=◌,
}
use k8s_docker_operator.Exec.Keeps.{Keeps, Keeps-bind, Keeps-handle, Keeps-pure}
use k8s_docker_operator.Exec.Total.{
  Total, Total-pure, Total-attempt, Total-handle, Total-bind, total_rules,
}
use k8s_docker_operator.Outside.Trace.{Traced, traced_rules}
use k8s_docker_operator.Api.Container.{DockerContainer}
use k8s_docker_operator.Api.Host.{DockerHost}
use k8s_docker_operator.Api.Service.{DockerService}
use k8s_docker_operator.Outside.Docker.{Client}
use k8s_docker_operator.Outside.Calls.{
  Env, World, Cluster, Effect, CachedClient, ask, act, client_opened, client_closed,
  container_removed, service_updated,
}
use k8s_docker_operator.Outside.Requeue.{Outcome, done, again}
use k8s_docker_operator.JobController.Client.{open_client, local_client}
use k8s_docker_operator.ContainerController.Reconcile.{try_remove}
use k8s_docker_operator.ServiceController.Host.{
  host_tls, connect, default_client, fallback, resolve_host, refresh, get_docker_client,
}
use k8s_docker_operator.ServiceController.Client.{tunnel_client_name}
use k8s_docker_operator.ServiceController.Reconcile.{
  missing_delay, finalizer_name, container_key, select_containers, remaining_containers,
  clean_hosts, delete_external_resources, released, finalize, with_targets, by_reference,
  reconcile_service,
}

-- A call that opens or closes a Docker client, or removes a container with one of the names that tunnel
-- clients of the service have.
abbrev pub IsCleaning : DockerService → Effect → Type 0
IsCleaning ds (client_opened _) = Unit
IsCleaning ds (client_closed _) = Unit
IsCleaning ds (container_removed _ name) =
    (name ≡ tunnel_client_name ds) ⊎ (name ≡ ds.meta.name <> "-tunnel")
IsCleaning ds _ = ⊥

module _ {W F : Type 0} (env : Env W F) (cluster : Cluster W) (ds : DockerService) where
  abbrev Cleans : {A : Type 0} → (World W → Result A × World W) → Type 0
  Cleans m = Keeps (Traced (IsCleaning ds)) m

  open_client-Cleans : (opts : _) → Cleans (open_client env opts)
  unfolding open_client
  open_client-Cleans opts = search traced_rules

  host_tls-Cleans : (ns : String) (host : DockerHost) → Cleans (host_tls env ns host)
  unfolding host_tls
  host_tls-Cleans ns host = search traced_rules depth 7

  connect-Cleans : (tc : DockerContainer) (host : DockerHost) → Cleans (connect env tc host)
  unfolding connect
  connect-Cleans tc host = search (traced_rules, host_tls-Cleans, open_client-Cleans) depth 9

  local_client-Cleans : Cleans (local_client env)
  unfolding local_client
  local_client-Cleans = search (traced_rules, open_client-Cleans)

  resolve_host-Cleans : (tc : DockerContainer) (name : String) → Cleans (resolve_host env tc name)
  unfolding resolve_host fallback default_client
  resolve_host-Cleans tc name = search (traced_rules, connect-Cleans, local_client-Cleans) depth 9

  refresh-Cleans :
      (tc : DockerContainer) (name : String) (c : CachedClient) → Cleans (refresh env tc name c)
  unfolding refresh
  refresh-Cleans tc name c = search (traced_rules, resolve_host-Cleans) depth 9

  get_docker_client-Cleans : (tc : DockerContainer) → Cleans (get_docker_client env tc)
  unfolding get_docker_client
  get_docker_client-Cleans tc = search (traced_rules, refresh-Cleans, resolve_host-Cleans)

  try_remove-Cleans :
      (cli : Client)
      → Cleans (try_remove env cli (tunnel_client_name ds ∷ (ds.meta.name <> "-tunnel") ∷ []))
  unfolding try_remove
  try_remove-Cleans cli =
      let first : IsCleaning ds (container_removed cli (tunnel_client_name ds)) = inl refl in
      let second : IsCleaning ds (container_removed cli (ds.meta.name <> "-tunnel")) = inr refl in
      search (traced_rules, first, second) depth 9

  clean_hosts-Cleans :
      (hosts : List (String × DockerContainer)) → Cleans (clean_hosts env cluster ds hosts)
  unfolding clean_hosts
  clean_hosts-Cleans [] = search traced_rules
  clean_hosts-Cleans ((ref, tc) ∷ hosts) =
      Keeps-bind _ _
        (Keeps-handle _ _ _ (get_docker_client-Cleans tc) try_remove-Cleans (λ e. Keeps-pure tt))
        (λ _. clean_hosts-Cleans hosts)

  delete_external_resources-Cleans : Cleans (delete_external_resources env cluster ds)
  unfolding delete_external_resources remaining_containers select_containers
  delete_external_resources-Cleans = search (traced_rules, clean_hosts-Cleans) depth 9

  try_remove-Total : (cli : Client) (names : List String) → Total (try_remove env cli names)
  unfolding try_remove
  try_remove-Total cli [] = search total_rules
  try_remove-Total cli (name ∷ names) =
      Total-bind _ _ (Total-attempt _) (λ _. try_remove-Total cli names)

  clean_hosts-Total :
      (hosts : List (String × DockerContainer)) → Total (clean_hosts env cluster ds hosts)
  unfolding clean_hosts
  clean_hosts-Total [] = search total_rules
  clean_hosts-Total ((ref, tc) ∷ hosts) =
      Total-bind _ _ (Total-handle _ _ _ (λ cli. try_remove-Total cli _) (λ e. Total-pure tt))
        (λ _. clean_hosts-Total hosts)

  delete_external_resources-Total : Total (delete_external_resources env cluster ds)
  unfolding delete_external_resources remaining_containers
  delete_external_resources-Total = search (total_rules, clean_hosts-Total) depth 9

  trace-finalize :
      (v : World W)
      → env.libs.contains_finalizer ds.meta finalizer_name ≡ true
      → (finalize env cluster ds v).1.trace
        ≡ service_updated (released env cluster ds)
          ∷ (delete_external_resources env cluster ds v).1.trace
  unfolding finalize act branch raise pure ◌>>=◌
  trace-finalize v has =
      let (u, e) = delete_external_resources-Total.at v in
      let r =
        cluster.services.update (released env cluster ds)
          (delete_external_resources env cluster ds v).1.outside in
      rw (has, e) (after_update r.0 _)
    where
      after_update :
          (r : Result DockerService) (v : World W)
          → (branch (λ _. pure done) raise r v).1.trace ≡ v.trace
      after_update (ok stored) v = refl
      after_update (err e) v = refl

  module _ (sort : List String → List String) where
    with_targets-deleted :
        (cs : List DockerContainer) (v : World W) (deleted_at : ℤ)
        → ds.meta.deletion_timestamp ≡ some deleted_at
        → with_targets env cluster sort ds cs v ≡ finalize env cluster ds v
    unfolding with_targets given
    with_targets-deleted cs v deleted_at deleted = rw deleted refl

    reconcile_service-found :
        (w : World W) (c : DockerContainer)
        → ds.spec.selector ≡ none
        → ds.spec.container_ref ≢ ""
        → (env.containers.get (container_key env cluster ds) w.outside).0 ≡ ok c
        → reconcile_service env cluster sort ds w
          ≡ with_targets env cluster sort ds
              (c ∷ [])
              (ask (env.containers.get (container_key env cluster ds)) w).1
    unfolding reconcile_service by_reference given handle branch ask
    reconcile_service-found w c by_ref named found =
        rw (by_ref, str_ne ds.spec.container_ref "" named, found) refl

    reconcile_service-not_found :
        (w : World W) (e : Error)
        → ds.spec.selector ≡ none
        → ds.spec.container_ref ≢ ""
        → (env.containers.get (container_key env cluster ds) w.outside).0 ≡ err e
        → (reconcile_service env cluster sort ds w).1.trace ≡ w.trace
    unfolding reconcile_service by_reference given handle branch ask pure raise
    reconcile_service-not_found w e by_ref named gone =
        rw (by_ref, str_ne ds.spec.container_ref "" named, gone) (requeued e.not_found _)
      where
        requeued :
            (b : Bool) (v : World W)
            → (if◌then◌else◌ {A = Exec (World W) Outcome} b
                (pure (again missing_delay))
                (raise e)
                v).1.trace
              ≡ v.trace
        requeued true v = refl
        requeued false v = refl

  -- Of a service that has no selector, names a container, is being deleted and has the finalizer, a pass that
  -- starts with no call made does this: where the container is found, its last call is the update that takes
  -- the finalizer off, and before it come only calls that open or close a Docker client or remove a container
  -- by one of the two names of the service's tunnel client, whatever all of them answer. Where the container is not
  -- found, or looking for it fails, it makes no call that changes anything, so that the finalizer stays.
  pub reconcile_service-deletion :
      (sort : List String → List String) (w : World W) (deleted_at : ℤ)
      → w.trace ≡ []
      → ds.meta.deletion_timestamp ≡ some deleted_at
      → ds.spec.selector ≡ none
      → ds.spec.container_ref ≢ ""
      → env.libs.contains_finalizer ds.meta finalizer_name ≡ true
      → ((c : DockerContainer)
          → (env.containers.get (container_key env cluster ds) w.outside).0 ≡ ok c
          → (earlier : List Effect) × ((reconcile_service env cluster sort ds w).1.trace
              ≡ service_updated (released env cluster ds) ∷ earlier)
            × All (IsCleaning ds) earlier)
        × ((e : Error)
            → (env.containers.get (container_key env cluster ds) w.outside).0 ≡ err e
            → (reconcile_service env cluster sort ds w).1.trace ≡ [])
  unfolding ask
  reconcile_service-deletion sort w deleted_at start deleted by_ref named has =
      let seen = (ask (env.containers.get (container_key env cluster ds)) w).1 in
      (
        λ c found. (
          (delete_external_resources env cluster ds seen).1.trace,
          ap (λ (r : Result Outcome × World W). r.1.trace)
                (reconcile_service-found sort w c by_ref named found
                  ∙ with_targets-deleted sort (c ∷ []) seen deleted_at deleted)
              ∙ trace-finalize seen has,
          delete_external_resources-Cleans.at seen (rw start tt),
        ),
        λ e gone. reconcile_service-not_found sort w e by_ref named gone ∙ start,
      )
