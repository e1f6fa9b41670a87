-- ===== src/Tests/Fixtures.antt =====
-- A small outside: every call succeeds and answers with the same values, but for the names that are not
-- there.
use Prim.Native.String.{◌++◌ as append}
use k8s_docker_operator.Prelude.{
  String, none, some, [], ◌∷◌, Bool, true, false, str_eq, eq_iff, arith, ◌≡◌, ◌≢◌, if◌then◌else◌,
}
use k8s_docker_operator.Prelude.Int.{pos}
use k8s_docker_operator.Exec.{Error, Result, ok, err}
use k8s_docker_operator.Api.Meta.{Key, Meta, Secret}
use k8s_docker_operator.Api.Job.{DockerJob, DockerJobSpec, DockerJobStatus, pending}
use k8s_docker_operator.Api.Host.{DockerHost}
use k8s_docker_operator.Outside.Docker.{Inspected, ContainerState}
use k8s_docker_operator.Outside.Calls.{Env, Objects, DockerApi, Libraries, World}

abbrev pub missing : Error
missing = record { not_found = true; message = "not found" }

abbrev pub answer : {A : Type 0} → A → Unit {0} → Result A × Unit {0}
answer a u = (ok a, u)

abbrev pub absent : {A : Type 0} → Unit {0} → Result A × Unit {0}
absent u = (err missing, u)

abbrev pub meta_named : String → Meta
meta_named name = record {
  name = name;
  namespace = "default";
  uid = name;
  labels = none;
  finalizers = [];
  creation_timestamp = pos 0;
  deletion_timestamp = none;
  controller = none;
}

-- A store in which every update is answered with the object sent, and nothing else is found.
abbrev pub objects : {T : Type 0} → (Key → Unit {0} → Result T × Unit {0}) → Objects (Unit {0}) T
objects get = record {
  get = get;
  list = λ _. answer [];
  create = λ t. answer t;
  delete = λ _. answer tt;
  update = λ t. answer t;
  update_status = λ t. answer t;
}

abbrev pub sample_secret : Secret
sample_secret = record {
  meta = meta_named "creds";
  data_entries = ("username", "ann") ∷ ("password", "pw") ∷ [];
}

abbrev pub sample_host : DockerHost
sample_host = record {
  meta = meta_named "remote";
  spec = record { host_url = "tcp://h:1"; tls_secret_name = "" };
  status = record { phase = ""; message = "" };
}

abbrev pub tls_host : DockerHost
tls_host = record sample_host {
  spec = record { host_url = "tcp://h:1"; tls_secret_name = "certs" };
}

abbrev pub job_spec : DockerJobSpec
job_spec = record {
  image = "app";
  container_name = "";
  command = "run" ∷ [];
  args = "-v" ∷ [];
  env = "A=1" ∷ [];
  env_vars = record { name = "B"; value = "2"; value_from = none } ∷ [];
  volume_mounts = [];
  secret_volumes = record { secret_name = "creds"; mount_path = "/etc/c" } ∷ [];
  docker_host_ref = "";
  image_pull_secret = "";
  restart_policy = "";
  backoff_limit = pos 2;
  active_deadline_seconds = some (pos 60);
  ttl_seconds_after_finished = some (pos 30);
  resources = none;
}

abbrev pub job_status : DockerJobStatus
job_status = record {
  phase = pending;
  container_id = "";
  start_time = none;
  completion_time = none;
  exit_code = none;
  attempts = pos 0;
  message = "";
}

abbrev pub sample_job : DockerJob
sample_job = record { meta = meta_named "j"; spec = job_spec; status = job_status }

abbrev pub container_in : ContainerState → Inspected
container_in state = record {
  id = "id1";
  state = some state;
  config = none;
  host_config = none;
  networks = none;
}

abbrev pub docker_with : Result Inspected → DockerApi (Unit {0})
docker_with inspected = record {
  new_client = λ _. answer "client";
  close = λ _. answer tt;
  ping = λ _. answer tt;
  inspect = λ _ _ u. (inspected, u);
  list = λ _. answer [];
  pull = λ _ _ _. answer tt;
  create = λ _ _ _ _. answer "id1";
  copy_to = λ _ _ _. answer tt;
  start = λ _ _. answer tt;
  stop = λ _ _. answer tt;
  remove = λ _ _. answer tt;
}

abbrev pub libraries : Bool → Libraries (Unit {0})
libraries finalizer = record {
  parse_float = λ _. none;
  scan_float = λ _. tt;
  nano_of = λ _. pos 0;
  parse_duration = λ _. none;
  to_lower = λ s. s;
  lower_codes = λ s. s;
  join_path = λ a b. append a (append "/" b);
  tar = λ _. ok "archive";
  append_certs = λ _. true;
  key_pair = λ _ _. ok "pair";
  encode_auth = λ _. ok "auth";
  new_port = λ p. some p;
  contains_finalizer = λ _ _. finalizer;
  add_finalizer = λ m f. record m { finalizers = f ∷ m.finalizers };
  remove_finalizer = λ m _. record m { finalizers = [] };
  set_controller = λ owner m. ok (record m { controller = some owner.uid });
}

-- The time is 100 seconds; hosts are found only in the namespace `system`.
abbrev pub env_with : Result Inspected → Bool → Env (Unit {0}) (Unit {0})
env_with inspected finalizer = record {
  now = λ u. (pos 100000000000, u);
  secrets =
      objects
        (λ key u. if str_eq key.name "creds" then (ok sample_secret, u) else (err missing, u));
  hosts =
      objects
        (λ key u. if str_eq key.namespace "system" then (ok tls_host, u) else (err missing, u));
  jobs = objects (λ _. answer sample_job);
  containers = objects (λ _. absent);
  deployments = objects (λ _. absent);
  docker = docker_with inspected;
  libs = libraries finalizer;
  injected = some "local";
}

abbrev pub start_world : World (Unit {0})
start_world = record { outside = tt; cache = []; trace = [] }

-- Texts of which the test says that they are not the same.
pub differ : (s t : String) → str_eq s t ≡ false → s ≢ t
differ s t h e = absurd (ground (arith, eq_iff s t))
