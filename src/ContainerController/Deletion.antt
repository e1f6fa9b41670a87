-- ===== src/ContainerController/Deletion.antt =====
-- What the deletion of a container removes.
use k8s_docker_operator.Prelude.{
  ◌≡◌, refl, ap, ◌∙◌, String, some, List, [], ◌∷◌, ◌++◌, true, false, arith,
}
use k8s_docker_operator.Prelude.Text.{◌<>◌}
use k8s_docker_operator.Prelude.Int.{ℤ}
use k8s_docker_operator.Exec.{Error, Result, ok, err, branch, pure, raise, handle, given, ◌>>=◌}
use k8s_docker_operator.Api.Container.{DockerContainer}
use k8s_docker_operator.Outside.Docker.{Client}
use k8s_docker_operator.Outside.Calls.{Env, World, Effect, act, container_removed, object_updated}
use k8s_docker_operator.Outside.Requeue.{Outcome}
use k8s_docker_operator.ContainerController.Reconcile.{
  finalizer_name, max_ports, tunnel_names, get_docker_client, try_remove, remove_main,
  delete_external_resources, released, finalize, reconcile_container,
}

-- The removals of some names, noted behind `t`.
abbrev pub removals : Client → List String → List Effect → List Effect
removals cli [] t = t
removals cli (name ∷ names) t = removals cli names (container_removed cli name ∷ t)

-- Every name that a removal is tried of, but the main one.
abbrev pub other_names : DockerContainer → List String
other_names cr = tunnel_names cr 0 (max_ports cr) ++ (cr.spec.container_name <> "-tunnel") ∷ []

module _ {W F : Type 0} (env : Env W F) (cli : Client) (cr : DockerContainer) where
  try_remove-removals :
      (names : List String) (w : World W)
      → ((try_remove env cli names w).0 ≡ ok tt)
        × ((try_remove env cli names w).1.trace ≡ removals cli names w.trace)
  unfolding try_remove act ◌>>=◌
  try_remove-removals [] w = (refl, refl)
  try_remove-removals (name ∷ names) w =
      try_remove-removals names (act (container_removed cli name) (env.docker.remove cli name) w).1

  -- The world after the removal of the main container.
  abbrev after : World W → World W
  after v = record v {
    outside = (env.docker.remove cli cr.spec.container_name v.outside).1;
    trace = container_removed cli cr.spec.container_name ∷ v.trace;
  }

  remove_main_stops :
      (v : World W) (e : Error)
      → (env.docker.remove cli cr.spec.container_name v.outside).0 ≡ err e
      → e.not_found ≡ false
      → remove_main env cli cr v ≡ (err e, after v)
  unfolding remove_main handle branch act raise
  remove_main_stops v e failed other = rw (failed, other) refl

  remove_main_goes :
      (v : World W) (r : Result (Unit {0}))
      → (env.docker.remove cli cr.spec.container_name v.outside).0 ≡ r
      → ((e : Error) → r ≡ err e → e.not_found ≡ true)
      → remove_main env cli cr v ≡ (ok tt, after v)
  unfolding remove_main handle branch act pure
  remove_main_goes v (ok u) answered missing = rw answered refl
  remove_main_goes v (err e) answered missing = rw (answered, missing e refl) refl

  finalize_stops :
      (v : World W) (e : Error)
      → env.libs.contains_finalizer cr.meta finalizer_name ≡ true
      → remove_main env cli cr v ≡ (err e, after v)
      → finalize env cli cr v ≡ (err e, after v)
  unfolding finalize delete_external_resources ◌>>=◌
  finalize_stops v e has stopped = rw (has, stopped) refl

  finalize_goes :
      (v : World W)
      → env.libs.contains_finalizer cr.meta finalizer_name ≡ true
      → remove_main env cli cr v ≡ (ok tt, after v)
      → (finalize env cli cr v).1.trace
        ≡ object_updated (released env cr) ∷ (try_remove env cli (other_names cr) (after v)).1.trace
  unfolding finalize delete_external_resources act ◌>>=◌
  finalize_goes v has gone =
      rw (has, gone, (try_remove-removals (other_names cr) (after v)).0) (ground arith)

  reconcile_container-finalize :
      (sort : List String → List String) (w v : World W) (deleted_at : ℤ)
      → cr.meta.deletion_timestamp ≡ some deleted_at
      → get_docker_client env cr w ≡ (ok cli, v)
      → reconcile_container env sort cr w ≡ finalize env cli cr v
  unfolding reconcile_container given ◌>>=◌
  reconcile_container-finalize sort w v deleted_at gone client = simp (gone, client)

  abbrev pub Deleted : World W → Result Outcome × World W → Type 0
  Deleted v r =
      ((e : Error)
        → (env.docker.remove cli cr.spec.container_name v.outside).0 ≡ err e
        → e.not_found ≡ false
        → (r.0 ≡ err e) × (r.1.trace ≡ container_removed cli cr.spec.container_name ∷ v.trace))
      × (((e : Error)
            → (env.docker.remove cli cr.spec.container_name v.outside).0 ≡ err e
            → e.not_found ≡ true)
          → r.1.trace
            ≡ object_updated (released env cr)
              ∷ removals cli (other_names cr)
                  (container_removed cli cr.spec.container_name ∷ v.trace))

  -- A container resource that is being deleted, has the controller's finalizer and resolves its client:
  -- if its container cannot be removed, the error is returned and the finalizer stays; if it is removed or
  -- was not there, a removal of each tunnel name is tried and the finalizer is taken off, whatever
  -- those removals answer.
  pub reconcile_container-Deleted :
      (sort : List String → List String) (w v : World W) (deleted_at : ℤ)
      → cr.meta.deletion_timestamp ≡ some deleted_at
      → get_docker_client env cr w ≡ (ok cli, v)
      → env.libs.contains_finalizer cr.meta finalizer_name ≡ true
      → Deleted v (reconcile_container env sort cr w)
  reconcile_container-Deleted sort w v deleted_at gone client has =
      rw (reconcile_container-finalize sort w v deleted_at gone client) (
        λ e failed other.
            let whole = finalize_stops v e has (remove_main_stops v e failed other) in
            (ap (λ r. r.0) whole, ap (λ r. r.1.trace) whole),
        λ missing.
            finalize_goes v has (remove_main_goes v _ refl missing)
            ∙ ap (λ t. object_updated (released env cr) ∷ t)
                (try_remove-removals (other_names cr) (after v)).1,
      )
