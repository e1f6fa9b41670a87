-- ===== src/ContainerController/Round.antt =====
-- Passes of `syncContainer` over a container that the daemon of Common.Mock does not have yet.
use k8s_docker_operator.Prelude.{
  ◌≡◌, refl, ap, ◌∙◌, inr, Bool, true, false, String, Option, none, some, List, [], ◌∷◌, ◌++◌, All,
  map, if◌then◌else◌, arith,
}
use text.Mathlib.TextPositions.{eq_refl}
use k8s_docker_operator.Prelude.Text.{◌<>◌}
use k8s_docker_operator.Exec.{Result, ok, pure, given, ◌>>=◌}
use k8s_docker_operator.Api.Container.{DockerContainer}
use k8s_docker_operator.Outside.Docker.{Client, ClientOpts, Inspected}
use k8s_docker_operator.Outside.Calls.{Env, World, ask, act, image_pulled}
use k8s_docker_operator.Common.Mock.{
  MockContainer, MockDockerClient, listed, is_match, find_match, inspection, container_inspect,
  mock_id, new_container, container_create, set_running, container_start, mock_docker,
}
use k8s_docker_operator.JobController.Create.{secret_ref, upload_all}
use k8s_docker_operator.JobController.Creation.{resolve_env-literal}
use k8s_docker_operator.ContainerController.Drift.{needs_recreate}
use k8s_docker_operator.ContainerController.Sync.{is_named, find_container, note, sync_container}
use k8s_docker_operator.ContainerController.Settled.{IsRearranging, needs_recreate-IsMadeFor}
use k8s_docker_operator.ContainerController.Steady.{sync_container-settles}
use k8s_docker_operator.ContainerController.Create.{
  container_config, container_host_config, pull_auth, make_container, fill_and_start,
  create_and_start_container,
}

set_running-names : (id : String) (c : MockContainer) → (set_running id c).names ≡ c.names
set_running-names id c = ground arith

is_match-set_running :
    (id : String) (c : MockContainer) → is_match id (set_running id c) ≡ is_match id c
is_match-set_running id c = ground arith

module _ {A : Type 0} where
  if_none :
      (test : Bool) (a : A) (rest : Option A)
      → (if test then some a else rest) ≡ none
      → (test ≡ false) × (rest ≡ none)
  if_none test a rest e = ground arith

-- A started daemon is searched as it was before.
find_container-started :
    (id expected : String) (cs : List MockContainer) (c : MockContainer)
    → find_container expected (map listed cs) ≡ none
    → is_named expected c.names ≡ true
    → find_container expected (map listed (map (set_running id) (cs ++ c ∷ [])))
      ≡ some (listed (set_running id c))
unfolding find_container
find_container-started id expected [] c missing named = rw (set_running-names id c, named) refl
find_container-started id expected (b ∷ cs) c missing named =
    let (other, rest) = if_none (is_named expected b.names) (listed b) _ missing in
    rw (set_running-names id b, other) (find_container-started id expected cs c rest named)

find_match-started :
    (id : String) (cs : List MockContainer) (c : MockContainer)
    → find_match id cs ≡ none
    → c.id ≡ id
    → find_match id (map (set_running id) (cs ++ c ∷ [])) ≡ some (set_running id c)
unfolding find_match
find_match-started id [] c missing same =
    let matches : is_match id c ≡ true = rw (same, eq_refl) refl in
    rw (is_match-set_running id c, matches) refl
find_match-started id (b ∷ cs) c missing same =
    let (other, rest) = if_none (is_match id b) b _ missing in
    rw (is_match-set_running id b, other) (find_match-started id cs c rest same)

module _ {F : Type 0} (base : Env MockDockerClient F) (opens : ClientOpts → Result Client)
    (sort : List String → List String) (cli : Client) (cr : DockerContainer) where
  abbrev pub env : Env MockDockerClient F
  env = record base { docker = mock_docker opens }

  -- The container as the creation makes it, and the daemon after the start.
  abbrev literals : List String
  literals = map (λ ev. ev.name <> "=" <> ev.value) cr.spec.env_vars

  abbrev made : MockContainer
  made =
      new_container (container_config env.libs cr (cr.spec.env ++ literals)) cr.spec.container_name

  abbrev daemon : MockDockerClient → MockDockerClient
  daemon m =
      (container_start (mock_id cr.spec.container_name)
        (container_create (container_config env.libs cr (cr.spec.env ++ literals))
          (container_host_config env.libs cr) cr.spec.container_name
          (record m { last_pull_auth = "" })).1).1

  created :
      (w : World MockDockerClient)
      → cr.spec.image_pull_secret ≡ ""
      → All (λ ev. secret_ref ev ≡ none) cr.spec.env_vars
      → cr.spec.secret_volumes ≡ []
      → ((create_and_start_container env cli cr w).0 ≡ ok tt)
        × ((create_and_start_container env cli cr w).1.outside ≡ daemon w.outside)
  unfolding create_and_start_container make_container fill_and_start pull_auth upload_all act pure
      ◌>>=◌ container_create container_start
  created w public literal empty =
      let resolved =
        resolve_env-literal env cr.meta.namespace cr.spec.env cr.spec.env_vars
          (record w {
            outside = record w.outside { last_pull_auth = "" };
            trace = image_pulled cli cr.spec.image "" ∷ w.trace;
          })
          literal in
      rw (public, resolved, empty) (refl, refl)

  -- The container as the daemon has it then, and what an inspection says of it.
  abbrev pub up : MockContainer
  up = set_running (mock_id cr.spec.container_name) made

  abbrev pub seen : MockDockerClient → Inspected
  seen m = inspection (daemon m) up

  named_made : is_named ("/" <> cr.spec.container_name) made.names ≡ true
  named_made = rw eq_refl refl

  first_pass :
      (w : World MockDockerClient)
      → find_container ("/" <> cr.spec.container_name) (map listed w.outside.containers) ≡ none
      → sync_container env sort cli cr w ≡ create_and_start_container env cli cr w
  unfolding sync_container given ask ◌>>=◌
  first_pass w missing = rw missing refl

  up_running : up.state ≡ "running"
  up_running = rw eq_refl refl

  up_id : up.id ≡ mock_id cr.spec.container_name
  up_id = rw eq_refl refl

  fits :
      IsRearranging env.libs sort
      → env.libs.to_lower (env.libs.to_lower cr.spec.restart_policy)
        ≡ env.libs.to_lower cr.spec.restart_policy
      → (m : MockDockerClient) → needs_recreate env.libs sort (seen m) cr.spec ≡ false
  unfolding container_create container_start given
  fits law lower m =
      needs_recreate-IsMadeFor env.libs sort law cr.spec (seen m) _ _ lower refl refl
        (refl, inr refl, (literals, refl), refl, refl)

  seen_up :
      (m : MockDockerClient)
      → find_match (mock_id cr.spec.container_name) m.containers ≡ none
      → (container_inspect (mock_id cr.spec.container_name) (daemon m)).0 ≡ ok (seen m)
  unfolding container_inspect container_create container_start given
  seen_up m fresh =
      rw (find_match-started (mock_id cr.spec.container_name) m.containers made fresh refl)
        (rw eq_refl refl)

  -- A container without a pull secret, Secret volumes and variables from Secrets, on a daemon that has no container
  -- of its name and none that answers to the identity of a new one; lower case is idempotent on its policy, and
  -- sorting brings no new element in. A first pass creates and starts it, and the listing then has it
  -- running; once the status that a look at it writes is stored, a second pass makes no call that changes
  -- anything. Both end without an error.
  pub sync_container-creates_once :
      IsRearranging env.libs sort
      → env.libs.to_lower (env.libs.to_lower cr.spec.restart_policy)
        ≡ env.libs.to_lower cr.spec.restart_policy
      → cr.spec.image_pull_secret ≡ ""
      → All (λ ev. secret_ref ev ≡ none) cr.spec.env_vars
      → cr.spec.secret_volumes ≡ []
      → (w : World MockDockerClient)
      → find_container ("/" <> cr.spec.container_name) (map listed w.outside.containers) ≡ none
      → find_match (mock_id cr.spec.container_name) w.outside.containers ≡ none
      → let (r, later) = sync_container env sort cli cr w in
        let stored = (note (listed up) (some (seen w.outside)) cr).container in
        (r ≡ ok tt)
        × (find_container ("/" <> cr.spec.container_name) (map listed later.outside.containers)
            ≡ some (listed up))
        × ((sync_container env sort cli stored later).0 ≡ ok tt)
        × ((sync_container env sort cli stored later).1.trace ≡ later.trace)
  unfolding container_create container_start
  sync_container-creates_once law lower public literal empty w missing fresh =
      let (returned, daemon_then) = created w public literal empty in
      let later = (create_and_start_container env cli cr w).1 in
      let found : find_container ("/" <> cr.spec.container_name)
            (map listed later.outside.containers)
          ≡ some (listed up) =
        rw daemon_then (
          find_container-started (mock_id cr.spec.container_name) ("/" <> cr.spec.container_name)
            w.outside.containers made missing named_made) in
      let (done, still) =
        sync_container-settles env sort cli (listed up) (seen w.outside) cr
          (map listed later.outside.containers) later refl found
          (rw daemon_then (
            ap (λ id. (container_inspect id (daemon w.outside)).0) up_id ∙ seen_up w.outside fresh))
          up_running (fits law lower w.outside) in
      rw (first_pass w missing) (returned, found, done, still)
