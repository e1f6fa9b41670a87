-- ===== src/ServiceController/Host.antt =====
-- `getDockerClient` of internal/controller/dockerservice/reconciler.go. Unlike its two relatives it returns
-- errors as they are, and stores a client under the reference and not under the name that it stands for.
use k8s_docker_operator.Prelude.{String, Option, none, some, str_eq, if◌then◌else◌}
use k8s_docker_operator.Prelude.Int.{ltb_ℤ}
use k8s_docker_operator.Exec.{Error, Exec, pure, raise, lift, attempt, handle, given, ◌>>=◌, ◌>>◌}
use k8s_docker_operator.Api.Host.{DockerHost}
use k8s_docker_operator.Api.Container.{DockerContainer}
use k8s_docker_operator.Outside.Docker.{Client, TlsConfig}
use k8s_docker_operator.Outside.Calls.{
  Env, World, CachedClient, ask, act, cache_load, cache_store, cache_delete, client_closed,
}
use k8s_docker_operator.Outside.Time.{clock, sub_time}
use k8s_docker_operator.Common.Tls.{get_tls_config}
use k8s_docker_operator.JobController.Client.{
  cache_lifetime, host_name, cache_key, remote_opts, open_client, local_client,
}

module _ {W F : Type 0} (env : Env W F) where
  unfoldable pub host_tls : String → DockerHost → Exec (World W) (Option TlsConfig)
  host_tls namespace host =
      let name = host.spec.tls_secret_name in
      let load = do
        secret ← ask (env.secrets.get (record { namespace = namespace; name = name }))
        config ← lift (get_tls_config env.libs secret)
        pure (some config)
      in if str_eq name "" then pure none else load

  unfoldable pub connect : DockerContainer → DockerHost → Exec (World W) Client
  connect cr host = do
    tls ← host_tls cr.meta.namespace host
    cli ← open_client env (remote_opts host tls)
    created_at ← clock env
    cache_store (cache_key cr.meta.namespace cr.spec.docker_host_ref)
        (record { client = cli; created_at = created_at })
    pure cli

  unfoldable pub default_client : String → Error → Exec (World W) Client
  default_client name e = if str_eq name "default" then local_client env else raise e

  -- The container's namespace has no such host.
  unfoldable pub fallback : DockerContainer → String → Error → Exec (World W) Client
  fallback cr name e =
      let get_host = ask (env.hosts.get (record { namespace = "system"; name = name })) in
      if str_eq cr.meta.namespace "system"
      then default_client name e
      else handle get_host (connect cr) (λ _. default_client name e)

  unfoldable pub resolve_host : DockerContainer → String → Exec (World W) Client
  resolve_host cr name =
      handle (ask (env.hosts.get (record { namespace = cr.meta.namespace; name = name })))
        (connect cr) (λ e. if e.not_found then fallback cr name e else raise e)

  -- An entry that has expired is closed and dropped.
  unfoldable pub refresh : DockerContainer → String → CachedClient → Exec (World W) Client
  refresh cr name cached = do
    now ← clock env
    let evict = do
      attempt (act (client_closed cached.client) (env.docker.close cached.client))
      cache_delete (cache_key cr.meta.namespace name)
      resolve_host cr name
    if ltb_ℤ (sub_time now cached.created_at) cache_lifetime then pure cached.client else evict

  unfoldable pub get_docker_client : DockerContainer → Exec (World W) Client
  get_docker_client cr = do
    let name = host_name cr.spec.docker_host_ref
    found ← cache_load (cache_key cr.meta.namespace name)
    given found (refresh cr name) (resolve_host cr name)
