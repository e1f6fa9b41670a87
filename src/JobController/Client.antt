-- ===== src/JobController/Client.antt =====
-- `getDockerClient` of dockerjob/reconciler.go: the client of a DockerHost, from the reconciler's
-- cache while it is fresh.
use k8s_docker_operator.Prelude.{String, Option, none, some, str_eq, if◌then◌else◌}
use k8s_docker_operator.Prelude.Int.{ℤ, pos, ltb_ℤ}
use k8s_docker_operator.Prelude.Text.{◌<>◌}
use k8s_docker_operator.Exec.{
  Error, wrap, Exec, pure, raise, lift, attempt, handle, given, ◌>>=◌, ◌>>◌,
}
use k8s_docker_operator.Api.Meta.{Secret}
use k8s_docker_operator.Api.Host.{DockerHost}
use k8s_docker_operator.Outside.Docker.{Client, ClientOpts, TlsConfig}
use k8s_docker_operator.Outside.Calls.{
  Env, World, CachedClient, ask, act, cache_load, cache_store, cache_delete, client_opened,
  client_closed,
}
use k8s_docker_operator.Outside.Time.{clock, sub_time}
use k8s_docker_operator.Common.Tls.{get_tls_config}

-- 5 * time.Minute
abbrev pub cache_lifetime : ℤ
cache_lifetime = pos 300000000000

abbrev pub host_name : String → String
host_name ref = if str_eq ref "" then "default" else ref

abbrev pub cache_key : String → String → String
cache_key namespace name = namespace <> "/" <> name

abbrev pub remote_opts : DockerHost → Option TlsConfig → ClientOpts
remote_opts host tls = record { host = some host.spec.host_url; tls = tls; timeout = none }

abbrev pub local_opts : ClientOpts
local_opts = record { host = none; tls = none; timeout = none }

module _ {W F : Type 0} (env : Env W F) where
  unfoldable pub open_client : ClientOpts → Exec (World W) Client
  open_client opts = act (client_opened opts) (env.docker.new_client opts)

  -- The Secret of the certificates is read in the namespace of the job.
  unfoldable pub host_tls : String → DockerHost → Exec (World W) (Option TlsConfig)
  host_tls namespace host =
      let secret_name = host.spec.tls_secret_name in
      let get_secret =
        ask (env.secrets.get (record { namespace = namespace; name = secret_name })) in
      let load = λ (secret : Secret).
        handle (lift (get_tls_config env.libs secret)) (λ config. pure (some config))
          (λ e. raise (wrap "failed to load TLS config: " e)) in
      if str_eq secret_name ""
      then pure none
      else handle get_secret load
          (λ e. raise (wrap ("failed to get TLS Secret '" <> secret_name <> "': ") e))

  unfoldable pub connect : String → String → DockerHost → Exec (World W) Client
  connect namespace key host = do
    tls ← host_tls namespace host
    cli ← open_client (remote_opts host tls)
    created_at ← clock env
    cache_store key (record { client = cli; created_at = created_at })
    pure cli

  -- The local daemon, or the client that a test injected.
  unfoldable pub local_client : Exec (World W) Client
  local_client = given env.injected pure (open_client local_opts)

  abbrev pub not_resolved : String → Error → Exec (World W) Client
  not_resolved name e = raise (wrap ("failed to get DockerHost '" <> name <> "': ") e)

  -- The job's namespace has no such host, and neither has `system`: the local daemon for `default`.
  unfoldable pub default_client : String → Error → Exec (World W) Client
  default_client name e = if str_eq name "default" then local_client else not_resolved name e

  -- The job's namespace has no such host.
  unfoldable pub fallback : String → String → String → Error → Exec (World W) Client
  fallback namespace key name e =
      let get_host = ask (env.hosts.get (record { namespace = "system"; name = name })) in
      if str_eq namespace "system"
      then default_client name e
      else handle get_host (connect namespace key) (λ _. default_client name e)

  unfoldable pub resolve_host : String → String → String → Exec (World W) Client
  resolve_host namespace key name =
      handle (ask (env.hosts.get (record { namespace = namespace; name = name })))
        (connect namespace key)
        (λ e. if e.not_found then fallback namespace key name e else not_resolved name e)

  -- An entry that has expired is closed and dropped.
  unfoldable pub refresh : String → String → String → CachedClient → Exec (World W) Client
  refresh namespace key name cached = do
    now ← clock env
    let evict = do
      attempt (act (client_closed cached.client) (env.docker.close cached.client))
      cache_delete key
      resolve_host namespace key name
    if ltb_ℤ (sub_time now cached.created_at) cache_lifetime then pure cached.client else evict

  unfoldable pub get_docker_client : String → String → Exec (World W) Client
  get_docker_client namespace ref = do
    let name = host_name ref
    let key = cache_key namespace name
    found ← cache_load key
    given found (refresh namespace key name) (resolve_host namespace key name)
