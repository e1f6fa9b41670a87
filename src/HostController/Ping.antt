-- ===== src/HostController/Ping.antt =====
-- internal/controller/dockerhost/reconciler.go
use k8s_docker_operator.Prelude.{Option, none, some, Bool, ◌&&◌, str_eq, if◌then◌else◌}
use k8s_docker_operator.Prelude.Int.{ℤ, pos}
use k8s_docker_operator.Exec.{wrap, Exec, Result, ok, err, pure, raise, lift, handle, ◌>>=◌, ◌>>◌}
use k8s_docker_operator.Api.Meta.{Key, Secret}
use k8s_docker_operator.Api.Host.{DockerHost}
use k8s_docker_operator.Outside.Docker.{Client, ClientOpts, TlsConfig}
use k8s_docker_operator.Outside.Calls.{
  Env, World, ask, act, client_opened, client_closed, host_status_updated,
}
use k8s_docker_operator.Outside.Requeue.{Outcome, done, again}
use k8s_docker_operator.Common.Tls.{get_tls_config}

-- 30 * time.Second
abbrev pub ping_delay : ℤ
ping_delay = pos 30000000000

-- The HTTP client that is made for TLS has a timeout of five seconds.
abbrev pub ping_opts : DockerHost → Option TlsConfig → ClientOpts
ping_opts host tls = record {
  host = some host.spec.host_url;
  tls = tls;
  timeout = elim tls [ none ↦ none | some _ ↦ some (pos 5000000000) ];
}

-- `newPhase` and `newMessage`, in the status of the host.
abbrev pub observed : DockerHost → Result (Unit {0}) → DockerHost
observed host (ok _) = record host {
  status = record { phase = "Connected"; message = "Successfully connected to Docker Daemon" };
}
observed host (err e) = record host { status = record { phase = "Error"; message = e.message } }

abbrev pub same_status : DockerHost → DockerHost → Bool
same_status a b = str_eq a.status.phase b.status.phase && str_eq a.status.message b.status.message

module _ {W F : Type 0} (env : Env W F) where
  unfoldable pub ping_tls : DockerHost → Exec (World W) (Option TlsConfig)
  ping_tls host =
      let name = host.spec.tls_secret_name in
      let get_secret =
        ask (env.secrets.get (record { namespace = host.meta.namespace; name = name })) in
      let load = λ (secret : Secret).
        handle (lift (get_tls_config env.libs secret)) (λ config. pure (some config))
          (λ e. raise (wrap "failed to load TLS config: " e)) in
      if str_eq name ""
      then pure none
      else handle get_secret load (λ e. raise (wrap "failed to get TLS Secret: " e))

  -- `defer cli.Close()`, then the ping.
  unfoldable pub ping_and_close : Client → Exec (World W) (Unit {0})
  ping_and_close cli w =
      let (r, v) = ask (env.docker.ping cli) w in
      (r, (act (client_closed cli) (env.docker.close cli) v).1)

  unfoldable pub ping_host : DockerHost → Exec (World W) (Unit {0})
  ping_host host = do
    tls ← ping_tls host
    cli ← act (client_opened (ping_opts host tls)) (env.docker.new_client (ping_opts host tls))
    ping_and_close cli

  -- The update of the status, if it changed.
  unfoldable pub report : DockerHost → Result (Unit {0}) → Exec (World W) Outcome
  report host r =
      let host' = observed host r in
      let update = act (host_status_updated host') (env.hosts.update_status host') in
      if same_status host host' then pure (again ping_delay) else update >> pure (again ping_delay)

  unfoldable pub check_host : DockerHost → Exec (World W) Outcome
  check_host host w = let (r, v) = ping_host host w in report host r v

  unfoldable pub reconcile : Key → Exec (World W) Outcome
  reconcile key =
      handle (ask (env.hosts.get key)) check_host (λ e. if e.not_found then pure done else raise e)
