-- ===== src/ContainerController/Reconcile.antt =====
-- `Reconcile`, `deleteExternalResources` and `getDockerClient` of
-- internal/controller/dockercontainer/reconciler.go.
use k8s_docker_operator.Prelude.{
  ℕ, zero, suc, ltb, length, String, List, [], ◌∷◌, ◌++◌, if◌then◌else◌,
}
use k8s_docker_operator.Prelude.Int.{ℤ, pos}
use k8s_docker_operator.Prelude.Text.{◌<>◌, show_ℕ}
use k8s_docker_operator.Exec.{Exec, pure, raise, attempt, handle, given, ◌>>=◌, ◌>>◌}
use k8s_docker_operator.Api.Meta.{Key}
use k8s_docker_operator.Api.Container.{DockerContainer}
use k8s_docker_operator.Outside.Docker.{Client}
use k8s_docker_operator.Outside.Calls.{Env, World, ask, act, container_removed, object_updated}
use k8s_docker_operator.Outside.Requeue.{Outcome, done, again}
use k8s_docker_operator.JobController.Client
use k8s_docker_operator.ContainerController.Sync.{sync_container}

abbrev pub finalizer_name : String
finalizer_name = "dockercontainer.kdop.io.vn/finalizer"

-- `fmt.Sprintf("%s-tunnel-%d", name, i)`
abbrev pub tunnel_name : String → ℕ → String
tunnel_name name i = name <> "-tunnel-" <> show_ℕ i

unfoldable pub max_ports : DockerContainer → ℕ
max_ports cr = if ltb 10 (length cr.spec.services) then length cr.spec.services else 10

-- The names that the loop tries from the index `i` on, for `n` indices.
unfoldable pub tunnel_names : DockerContainer → ℕ → ℕ → List String
tunnel_names cr i zero = []
tunnel_names cr i (suc n) =
    tunnel_name cr.spec.container_name i ∷ tunnel_name cr.meta.name i ∷ tunnel_names cr (suc i) n

-- 1 * time.Minute
abbrev pub resync_delay : ℤ
resync_delay = pos 60000000000

module _ {W F : Type 0} (env : Env W F) where
  -- The same code as in dockerjob/reconciler.go, for another object.
  unfoldable pub get_docker_client : DockerContainer → Exec (World W) Client
  get_docker_client cr = Client.get_docker_client env cr.meta.namespace cr.spec.docker_host_ref

  abbrev pub remove_named : Client → String → Exec (World W) (Unit {0})
  remove_named cli name = act (container_removed cli name) (env.docker.remove cli name)

  -- Removals whose errors are logged or dropped.
  unfoldable pub try_remove : Client → List String → Exec (World W) (Unit {0})
  try_remove cli [] = pure tt
  try_remove cli (name ∷ names) = attempt (remove_named cli name) >> try_remove cli names

  -- The main container; that it is not there is no error.
  unfoldable pub remove_main : Client → DockerContainer → Exec (World W) (Unit {0})
  remove_main cli cr =
      handle (remove_named cli cr.spec.container_name) pure
        (λ e. if e.not_found then pure tt else raise e)

  unfoldable pub delete_external_resources : Client → DockerContainer → Exec (World W) (Unit {0})
  delete_external_resources cli cr =
      remove_main cli cr
      >> try_remove cli
          (tunnel_names cr 0 (max_ports cr) ++ (cr.spec.container_name <> "-tunnel") ∷ [])

  abbrev pub update_container : DockerContainer → Exec (World W) DockerContainer
  update_container cr = act (object_updated cr) (env.containers.update cr)

  unfoldable pub ensure_finalizer : DockerContainer → Exec (World W) DockerContainer
  ensure_finalizer cr =
      if env.libs.contains_finalizer cr.meta finalizer_name
      then pure cr
      else update_container (record cr { meta = env.libs.add_finalizer cr.meta finalizer_name })

  abbrev pub released : DockerContainer → DockerContainer
  released cr = record cr { meta = env.libs.remove_finalizer cr.meta finalizer_name }

  -- The container is being deleted.
  unfoldable pub finalize : Client → DockerContainer → Exec (World W) Outcome
  finalize cli cr =
      let clean = do delete_external_resources cli cr; update_container (released cr); pure done
      in if env.libs.contains_finalizer cr.meta finalizer_name then clean else pure done

  module _ (sort : List String → List String) where
    unfoldable pub sync_and_requeue : Client → DockerContainer → Exec (World W) Outcome
    sync_and_requeue cli cr = sync_container env sort cli cr >> pure (again resync_delay)

    unfoldable pub reconcile_container : DockerContainer → Exec (World W) Outcome
    reconcile_container cr = do
      cli ← get_docker_client cr
      given cr.meta.deletion_timestamp (λ _. finalize cli cr)
          (ensure_finalizer cr >>= sync_and_requeue cli)

    unfoldable pub reconcile : Key → Exec (World W) Outcome
    reconcile key =
        handle (ask (env.containers.get key)) reconcile_container
          (λ e. if e.not_found then pure done else raise e)
