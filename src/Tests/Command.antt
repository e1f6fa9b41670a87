-- ===== src/Tests/Command.antt =====
-- The theorems of the command, of the gateway and of the requests for logs at small inputs.
use k8s_docker_operator.Prelude.{
  ◌++◌, String, ◌≡◌, refl, true, [], ◌∷◌, some, none, str_eq, if◌then◌else◌,
}
use k8s_docker_operator.Prelude.Text.{codes}
use k8s_docker_operator.Prelude.Text.{find_key, store_key, delete_key}
use k8s_docker_operator.Exec.{Result, ok, err}
use k8s_docker_operator.Outside.Docker.{Client}
use k8s_docker_operator.Outside.Calls.{Env, client_opened}
use k8s_docker_operator.JobController.Client.{local_opts}
use k8s_docker_operator.ContainerController.Logs.{LogsOptions, LogStream, Reply, handle_logs}
use k8s_docker_operator.ContainerController.LogClients.{handle_logs-client_opened}
use k8s_docker_operator.Tests.Fixtures.{env_with, missing, start_world, differ}
use k8s_docker_operator.Exec.{given}
use k8s_docker_operator.Tunnel.Client.{new_client}
use k8s_docker_operator.Tunnel.Server.{registered}
use k8s_docker_operator.Tunnel.Gateway.{Url, Urls, Request, get_value, target_url, direct}
use k8s_docker_operator.Tunnel.Forward.{meets, direct-handle_ws}
use k8s_docker_operator.ServiceController.Server.{server_args}
use k8s_docker_operator.ServiceController.Client.{client_args}
use k8s_docker_operator.ContainerController.Former.{former_args}
use k8s_docker_operator.Manager.Run.{failed, run_tunnel, serves, connects}
use k8s_docker_operator.Manager.Args.{behind, served, run_tunnel-args}
use k8s_docker_operator.Tests.Tunnel.{busy}
use k8s_docker_operator.Tests.Service.{env, cluster, service}

run_tunnel-args_example :
    (run_tunnel (behind (server_args service "s3")) ≡ serves (served service "s3"))
    × (run_tunnel (behind (client_args env cluster "ws://t/ws" "s3"))
        ≡ connects (new_client (codes "ws://t/ws") (codes "s3")))
    × (run_tunnel (behind (former_args "ws://t/ws" "10.0.0.2:80")) ≡ failed)
run_tunnel-args_example = run_tunnel-args env cluster service "s3" "ws://t/ws" "10.0.0.2:80"

abbrev tunnel_url : Url
tunnel_url = record { scheme = "ws"; host = "t:1"; path = "/ws"; raw_query = "" }

-- URLs of the one request, whose queries have a target and a token, or a token.
abbrev urls : Urls
urls = record {
  parse = λ s. if str_eq s "ws://t:1/ws" then some tunnel_url else none;
  query = λ s.
      if str_eq s "whole"
      then ("target", "ws://t:1/ws") ∷ ("token", "s3") ∷ []
      else if str_eq s "token=s3"
      then ("token", "s3") ∷ []
      else [];
  encode = λ q. "token=s3";
}

abbrev request : Request
request = record {
  url = record { scheme = "http"; host = "g"; path = "/"; raw_query = "whole" };
  host = "g";
}

direct-handle_ws_example :
    ((direct urls request).host ≡ "t:1")
    × ((direct urls request).url.host ≡ "t:1")
    × (meets urls (direct urls request) true (some 4) busy
        ≡ some (registered, record busy { sessions = busy.sessions ++ 4 ∷ [] }))
unfolding get_value target_url find_key store_key delete_key given
direct-handle_ws_example =
    direct-handle_ws urls request tunnel_url 4 busy (λ key. refl) (differ "ws://t:1/ws" "" refl)
      refl refl (differ "s3" "" refl) refl

abbrev no_client : Env (Unit {0}) (Unit {0})
no_client = record (env_with (err missing) true) { injected = none }

abbrev log_of : Client → String → LogsOptions → Unit {0} → Result LogStream × Unit {0}
log_of cli name options u = (ok (record { pieces = "up" ∷ []; failure = none }), u)

handle_logs-client_opened_example :
    ((handle_logs no_client log_of (("name", "c") ∷ []) start_world).1.trace
      ≡ client_opened local_opts ∷ [])
    × (reply : Reply) × ((handle_logs no_client log_of (("name", "c") ∷ []) start_world).0
        ≡ ok reply)
unfolding get_value find_key given
handle_logs-client_opened_example =
    handle_logs-client_opened no_client log_of (("name", "c") ∷ []) start_world (differ "c" "" refl)
      refl
