-- ===== src/Tests/Round.antt =====
-- Two passes over a container on an empty daemon of Common.Mock.
use k8s_docker_operator.Prelude.{◌≡◌, refl, true, none, some, [], map}
use k8s_docker_operator.Prelude.Int.{pos}
use k8s_docker_operator.Exec.{Result, ok, err}
use k8s_docker_operator.Outside.Docker.{Client, ClientOpts}
use k8s_docker_operator.Outside.Calls.{Env, Objects, World}
use k8s_docker_operator.Common.Mock.{MockDockerClient, listed, find_match, mock_docker}
use k8s_docker_operator.ContainerController.Sync.{find_container, note, sync_container}
use k8s_docker_operator.ContainerController.Round.{env, up, seen, sync_container-creates_once}
use k8s_docker_operator.Tests.Fixtures.{libraries, missing}
use k8s_docker_operator.Tests.Fresh.{fresh}

abbrev nothing : {T : Type 0} → Objects MockDockerClient T
nothing = record {
  get = λ _ m. (err missing, m);
  list = λ _ m. (ok [], m);
  create = λ t m. (ok t, m);
  delete = λ _ m. (ok tt, m);
  update = λ t m. (ok t, m);
  update_status = λ t m. (ok t, m);
}

abbrev opens : ClientOpts → Result Client
opens _ = ok "mock"

abbrev base : Env MockDockerClient (Unit {0})
base = record {
  now = λ m. (pos 0, m);
  secrets = nothing;
  hosts = nothing;
  jobs = nothing;
  containers = nothing;
  deployments = nothing;
  docker = mock_docker opens;
  libs = libraries true;
  injected = some "mock";
}

abbrev idle : MockDockerClient
idle = record {
  containers = [];
  created = [];
  removed = [];
  started = [];
  last_host_config = none;
  last_config = none;
  last_pull_auth = "";
  health_status = "";
}

abbrev begin : World MockDockerClient
begin = record { outside = idle; cache = []; trace = [] }

sync_container-creates_once_example :
    let daemon_env = env base opens (λ xs. xs) "mock" fresh in
    let (r, later) = sync_container daemon_env (λ xs. xs) "mock" fresh begin in
    let made = up base opens (λ xs. xs) "mock" fresh in
    let stored =
      (note (listed made) (some (seen base opens (λ xs. xs) "mock" fresh idle)) fresh).container in
    (r ≡ ok tt)
    × (find_container "/c" (map listed later.outside.containers) ≡ some (listed made))
    × ((sync_container daemon_env (λ xs. xs) "mock" stored later).0 ≡ ok tt)
    × ((sync_container daemon_env (λ xs. xs) "mock" stored later).1.trace ≡ later.trace)
unfolding find_container find_match
sync_container-creates_once_example =
    sync_container-creates_once base opens (λ xs. xs) "mock" fresh (λ p xs h. h) refl refl tt refl
      begin refl refl
