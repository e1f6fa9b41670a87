-- ===== src/ContainerController/LogClients.antt =====
-- The Docker clients of the requests for logs.
use k8s_docker_operator.Prelude.{◌≡◌, ◌≢◌, refl, ap, String, none, List, ◌∷◌}
use k8s_docker_operator.Prelude.Text.{◌<>◌, str_ne}
use k8s_docker_operator.Exec.{Result, ok, err, branch, pure, handle, given}
use k8s_docker_operator.Outside.Docker.{Client}
use k8s_docker_operator.Outside.Calls.{Env, World, ask, act, client_opened}
use k8s_docker_operator.JobController.Client.{local_opts, open_client, local_client}
use k8s_docker_operator.Tunnel.Gateway.{get_value}
use k8s_docker_operator.ContainerController.Logs.{
  LogsOptions, LogStream, Reply, shown_options, refusal, no_logs, stream_logs, handle_logs,
}

module _ {W F : Type 0} (env : Env W F)
    (container_logs : Client → String → LogsOptions → W → Result LogStream × W) where
  abbrev Answered : World W → Result Reply × World W → Type 0
  Answered w r = (r.1.trace ≡ w.trace) × (reply : Reply) × (r.0 ≡ ok reply)

  logs-Answered :
      (name : String) (r : Result LogStream) (v : World W)
      → Answered v (
          branch
            (λ stream. pure (record { status = 200; body = stream.pieces }))
            (λ e. pure (no_logs name e))
            r
            v)
  unfolding branch pure
  logs-Answered name (ok stream) v = (refl, record { status = 200; body = stream.pieces }, refl)
  logs-Answered name (err e) v = (refl, no_logs name e, refl)

  stream_logs-Answered :
      (name : String) (options : LogsOptions) (cli : Client) (v : World W)
      → Answered v (stream_logs env container_logs name options cli v)
  unfolding stream_logs handle ask
  stream_logs-Answered name options cli v =
      let answer = container_logs cli name options v.outside in
      logs-Answered name answer.0 (record v { outside = answer.1 })

  client-Answered :
      (name : String) (options : LogsOptions) (r : Result Client) (v : World W)
      → Answered v (
          branch
            (stream_logs env container_logs name options)
            (λ e. pure (refusal 500 ("failed to create docker client: " <> e.message)))
            r
            v)
  unfolding branch pure
  client-Answered name options (ok cli) v = stream_logs-Answered name options cli v
  client-Answered name options (err e) v = (refl, _, refl)

  local_client-open_client : env.injected ≡ none → local_client env ≡ open_client env local_opts
  unfolding local_client given
  local_client-open_client bare = ap (λ o. given o pure (open_client env local_opts)) bare

  -- Without a client that is given to the reconciler, every request for the logs of a named container
  -- is answered and opens a Docker client, and neither closes it nor keeps it for the next request.
  pub handle_logs-client_opened :
      (query : List (String × String)) (w : World W)
      → get_value "name" query ≢ ""
      → env.injected ≡ none
      → let r = handle_logs env container_logs query w in
        (r.1.trace ≡ client_opened local_opts ∷ w.trace) × (reply : Reply) × (r.0 ≡ ok reply)
  unfolding handle_logs open_client handle act
  handle_logs-client_opened query w named bare =
      let opened = env.docker.new_client local_opts w.outside in
      rw (str_ne (get_value "name" query) "" named, local_client-open_client bare)
        (client-Answered (get_value "name" query) (shown_options query) opened.0
          (record w { outside = opened.1; trace = client_opened local_opts ∷ w.trace }))
