-- ===== src/ContainerController/Sync.antt =====
-- `syncContainer` of internal/controller/dockercontainer/reconciler.go. `sort` is `sort.Strings`, which
-- `needsRecreate` uses.
use k8s_docker_operator.Prelude.{
  String, Option, none, some, List, [], ◌∷◌, Bool, false, not, ◌||◌, str_eq, if◌then◌else◌,
}
use k8s_docker_operator.Prelude.Text.{◌<>◌}
use k8s_docker_operator.Exec.{Exec, Result, ok, err, pure, attempt, given, ◌>>=◌, ◌>>◌}
use k8s_docker_operator.Api.Container.{DockerContainer}
use k8s_docker_operator.Outside.Docker.{Client, Inspected, ContainerState, Listed, Network}
use k8s_docker_operator.Outside.Calls.{
  Env, World, ask, act, container_started, container_stopped, container_removed,
  object_status_updated,
}
use k8s_docker_operator.ContainerController.Drift.{needs_recreate}
use k8s_docker_operator.ContainerController.Create.{create_and_start_container}

abbrev pub is_named : String → List String → Bool
is_named expected [] = false
is_named expected (name ∷ names) = str_eq name expected || is_named expected names

-- The nested loops over the containers and their names.
unfoldable pub find_container : String → List Listed → Option Listed
find_container expected [] = none
find_container expected (c ∷ cs) =
    let rest = find_container expected cs in if is_named expected c.names then some c else rest

abbrev pub first_address : List Network → String
first_address [] = ""
first_address (n ∷ ns) = if str_eq n.ip_address "" then first_address ns else n.ip_address

-- A container with the value of `statusChanged`.
pub record Noted : Type 0 where
  pub container : DockerContainer
  pub changed : Bool

unfoldable pub note_state : Listed → DockerContainer → Noted
note_state target cr = record {
  container = record cr { status = record cr.status { id = target.id; state = target.state } };
  changed = not (str_eq cr.status.id target.id) || not (str_eq cr.status.state target.state);
}

abbrev pub health_of : ContainerState → String
health_of state = given state.health (λ h. h) "none"

unfoldable pub note_health : ContainerState → Noted → Noted
note_health state n = record {
  container = record n.container {
    status = record n.container.status { health = health_of state };
  };
  changed = n.changed || not (str_eq n.container.status.health (health_of state));
}

unfoldable pub note_address : List Network → Noted → Noted
note_address networks n = record {
  container = record n.container {
    status = record n.container.status { ipv4 = first_address networks };
  };
  changed = n.changed || not (str_eq n.container.status.ipv4 (first_address networks));
}

-- The status after the inspection, `none` for an inspection that failed.
unfoldable pub note : Listed → Option Inspected → DockerContainer → Noted
note target none cr = note_state target cr
note target (some inspected) cr =
    let healthy = given inspected.state note_health (λ n. n) (note_state target cr) in
    given inspected.networks note_address (λ n. n) healthy

-- The answer of a call whose error is tested later.
unfoldable pub peek : {S A : Type 0} → Exec S A → Exec S (Option A)
peek m s = (ok (elim (m s).0 [ ok a ↦ some a | err _ ↦ none ]), (m s).1)

abbrev pub keep : DockerContainer → Result DockerContainer → DockerContainer
keep cr (ok stored) = stored
keep cr (err e) = cr

module _ {W F : Type 0} (env : Env W F) (sort : List String → List String) where
  -- The update of the status; an error is logged.
  unfoldable pub store_status : Noted → Exec (World W) DockerContainer
  store_status n w =
      let (r, w') =
        act (object_status_updated n.container) (env.containers.update_status n.container) w in
      if n.changed then (ok (keep n.container r), w') else (ok n.container, w)

  unfoldable pub ensure_running : Client → Listed → Exec (World W) (Unit {0})
  ensure_running cli target =
      if str_eq target.state "running"
      then pure tt
      else act (container_started cli target.id) (env.docker.start cli target.id)

  unfoldable pub recreate : Client → DockerContainer → Listed → Exec (World W) (Unit {0})
  recreate cli cr target =
      attempt (act (container_stopped cli target.id) (env.docker.stop cli target.id))
      >> act (container_removed cli target.id) (env.docker.remove cli target.id)
      >> create_and_start_container env cli cr

  -- Drift detection.
  unfoldable pub correct_drift :
      Client → DockerContainer → Listed → Option Inspected → Exec (World W) (Unit {0})
  correct_drift cli cr target none = pure tt
  correct_drift cli cr target (some inspected) =
      if needs_recreate env.libs sort inspected cr.spec then recreate cli cr target else pure tt

  unfoldable pub sync_found : Client → DockerContainer → Listed → Exec (World W) (Unit {0})
  sync_found cli cr target = do
    seen ← peek (ask (env.docker.inspect cli target.id))
    stored ← store_status (note target seen cr)
    ensure_running cli target
    correct_drift cli stored target seen

  unfoldable pub sync_container : Client → DockerContainer → Exec (World W) (Unit {0})
  sync_container cli cr = do
    containers ← ask (env.docker.list cli)
    given (find_container ("/" <> cr.spec.container_name) containers) (sync_found cli cr)
        (create_and_start_container env cli cr)
