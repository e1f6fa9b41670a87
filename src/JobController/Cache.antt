-- ===== src/JobController/Cache.antt =====
-- Which client `getDockerClient` gives, and at what cost.
use text.Mathlib.TextPositions.{eq_refl}
use k8s_docker_operator.Prelude.{String, ◌≡◌, ◌≢◌, sym, ap, ◌∙◌, List, true, some}
use k8s_docker_operator.Prelude.Int.{ℤ, ltb_ℤ}
use k8s_docker_operator.Prelude.Text.{◌<>◌, find_key, store_key, str_ne}
use k8s_docker_operator.Exec.{Error, wrap, ok, err, branch, handle, raise, given, ◌>>=◌}
use k8s_docker_operator.Exec.Inversion.{bind_ensures, pure_ok, pure_state}
use k8s_docker_operator.Api.Host.{DockerHost}
use k8s_docker_operator.Outside.Docker.{Client}
use k8s_docker_operator.Outside.Calls.{Env, World, CachedClient, ask, cache_load, cache_store}
use k8s_docker_operator.Outside.Time.{clock, sub_time}
use k8s_docker_operator.JobController.Client.{
  host_name, cache_key, cache_lifetime, host_tls, connect, fallback, refresh, get_docker_client,
}

find_key-store_key :
    {V : Type 0} (k : String) (v : V) (m : List (String × V))
    → find_key k (store_key k v m) ≡ some v
unfolding find_key store_key
find_key-store_key k v m = rw eq_refl

module _ {W F : Type 0} (env : Env W F) where
  -- A client in the cache is given while it is younger than five minutes, and nothing changes but the
  -- clock.
  get_docker_client-hit :
      (ns ref : String) (cached : CachedClient) (w : World W)
      → find_key (cache_key ns (host_name ref)) w.cache ≡ some cached
      → ltb_ℤ (sub_time (env.now w.outside).0 cached.created_at) cache_lifetime ≡ true
      → get_docker_client env ns ref w ≡ (ok cached.client, (clock env w).1)
  unfolding get_docker_client refresh given cache_load clock ◌>>=◌
  get_docker_client-hit ns ref cached w found young = rw (found, young)

  abbrev Stored : String → Client → World W → Type 0
  Stored key cli v =
      (t : ℤ) × (find_key key v.cache ≡ some (record { client = cli; created_at = t }))

  cache_store-Stored :
      (key : String) (cli : Client) (t : ℤ) (v : World W)
      → find_key key (cache_store key (record { client = cli; created_at = t }) v).1.cache
        ≡ some (record { client = cli; created_at = t })
  unfolding cache_store
  cache_store-Stored key cli t v = find_key-store_key key _ v.cache

  connect-Stored :
      (ns key : String) (host : DockerHost) (cli : Client) (w : World W)
      → (connect env ns key host w).0 ≡ ok cli
      → Stored key cli (connect env ns key host w).1
  unfolding connect
  connect-Stored ns key host cli w = bind_ensures (Stored key cli) _ _ w cli (λ tls s₁ _ _.
      bind_ensures (Stored key cli) _ _ s₁ cli (λ made s₂ _ _.
        bind_ensures (Stored key cli) _ _ s₂ cli (λ t s₃ _ _.
          bind_ensures (Stored key cli) _ _ s₃ cli (λ _ s₄ _ stored returned. (
            t,
            ap (λ (v : World W). find_key key v.cache) (pure_state made s₄ ∙ sym stored)
                ∙ cache_store-Stored key made t s₃
                ∙ ap (λ (c : Client). some (record { client = c; created_at = t }))
                    (pure_ok made s₄ cli returned),
          )))))

  -- When a connection to a host has returned a client, then in every later world with the same cache the
  -- host's reference resolves to that client for five minutes from a time of creation, with no call
  -- and no change but the clock's.
  pub connect-get_docker_client :
      (ns ref : String) (host : DockerHost) (cli : Client) (w : World W)
      → (connect env ns (cache_key ns (host_name ref)) host w).0 ≡ ok cli
      → (t : ℤ) × ((later : World W)
          → later.cache ≡ (connect env ns (cache_key ns (host_name ref)) host w).1.cache
          → ltb_ℤ (sub_time (env.now later.outside).0 t) cache_lifetime ≡ true
          → get_docker_client env ns ref later ≡ (ok cli, (clock env later).1))
  connect-get_docker_client ns ref host cli w made =
      let (t, stored) = connect-Stored ns (cache_key ns (host_name ref)) host cli w made in
      (
        t,
        λ later same young.
            get_docker_client-hit ns ref (record { client = cli; created_at = t }) later
              (rw same stored) young,
      )

  -- A host that is found only in the `system` namespace and names a Secret for TLS gives no client where the
  -- job's own namespace has no such Secret, whatever `system` has.
  pub fallback-system_tls :
      (ns key name : String) (e missing : Error) (host : DockerHost) (w : World W)
      → ns ≢ "system"
      → env.hosts.get (record { namespace = "system"; name = name }) w.outside
        ≡ (ok host, w.outside)
      → host.spec.tls_secret_name ≢ ""
      → (env.secrets.get (record { namespace = ns; name = host.spec.tls_secret_name }) w.outside).0
        ≡ err missing
      → (fallback env ns key name e w).0
        ≡ err (wrap ("failed to get TLS Secret '" <> host.spec.tls_secret_name <> "': ") missing)
  unfolding fallback connect host_tls handle branch raise ask ◌>>=◌
  fallback-system_tls ns key name e missing host w other found tls absent =
      rw (str_ne ns "system" other, found, str_ne host.spec.tls_secret_name "" tls, absent)
