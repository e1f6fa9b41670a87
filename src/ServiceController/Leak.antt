-- ===== src/ServiceController/Leak.antt =====
-- The cache of clients and a container without a host reference.
use text.Mathlib.TextLemmas.{append_cancel_left}
use k8s_docker_operator.Prelude.{◌≡◌, ◌≢◌, refl, String, none, List, [], ◌∷◌, eq_iff, arith}
use k8s_docker_operator.Prelude.Text.{◌<>◌, find_key, store_key, delete_key, str_ne}
use k8s_docker_operator.Exec.{Result, given, ◌>>=◌}
use k8s_docker_operator.Exec.Keeps.{Keeps, keeps_rules}
use k8s_docker_operator.Api.Container.{DockerContainer}
use k8s_docker_operator.Api.Host.{DockerHost}
use k8s_docker_operator.Outside.Calls.{
  Env, World, Effect, CachedClient, ask, act, cache_load, cache_store, cache_delete,
}
use k8s_docker_operator.Outside.Time.{clock}
use k8s_docker_operator.JobController.Client.{cache_key, open_client, local_client}
use k8s_docker_operator.ServiceController.Host.{
  host_tls, connect, default_client, fallback, resolve_host, get_docker_client,
}

delete_key-misses :
    {V : Type 0} (k j : String) (m : List (String × V))
    → find_key k m ≡ none
    → find_key k (delete_key j m) ≡ none
unfolding find_key delete_key
delete_key-misses k j [] h = refl
delete_key-misses k j ((i, v) ∷ m) h = ground (arith, delete_key-misses k j m)

store_key-misses :
    {V : Type 0} (k j : String) (v : V) (m : List (String × V))
    → j ≢ k
    → find_key k m ≡ none
    → find_key k (store_key j v m) ≡ none
unfolding find_key store_key
store_key-misses k j v m other h = rw (str_ne j k other) (delete_key-misses k j m h)

module _ {W : Type 0} (key : String) where
  -- The cache has no entry under a key.
  abbrev Misses : World W → Type 0
  Misses w = find_key key w.cache ≡ none

  module _ {A : Type 0} where
    Misses-ask : (f : W → Result A × W) → Keeps Misses (ask f)
    unfolding ask
    Misses-ask f = record { at = λ w h. h }

    Misses-act : (e : Effect) (f : W → Result A × W) → Keeps Misses (act e f)
    unfolding act
    Misses-act e f = record { at = λ w h. h }

  Misses-cache_load : (k : String) → Keeps Misses (cache_load k)
  unfolding cache_load
  Misses-cache_load k = record { at = λ w h. h }

  Misses-cache_delete : (k : String) → Keeps Misses (cache_delete k)
  unfolding cache_delete
  Misses-cache_delete k = record { at = λ w h. delete_key-misses key k w.cache h }

  Misses-cache_store : (k : String) (c : CachedClient) → k ≢ key → Keeps Misses (cache_store k c)
  unfolding cache_store
  Misses-cache_store k c other = record { at = λ w h. store_key-misses key k c w.cache other h }

module _ {W F : Type 0} (key : String) (env : Env W F) where
  Misses-clock : Keeps (Misses key) (clock env)
  unfolding clock
  Misses-clock = record { at = λ w h. h }

ruleset misses_rules = (
  keeps_rules, Misses-ask, Misses-act, Misses-cache_load, Misses-cache_delete, Misses-cache_store,
  Misses-clock,
)

keys_differ : (ns : String) → cache_key ns "" ≢ cache_key ns "default"
keys_differ ns e =
    let tails : "" ≡ "default" =
      append_cancel_left "/" "" "default"
        (append_cancel_left ns ("/" <> "") ("/" <> "default") e) in
    absurd (ground (arith, eq_iff "" "default", tails))

module _ {W F : Type 0} (env : Env W F) (cr : DockerContainer)
    (bare : cr.spec.docker_host_ref ≡ "") where
  abbrev default_key : String
  default_key = cache_key cr.meta.namespace "default"

  abbrev Forgets : World W → Type 0
  Forgets = Misses default_key

  stored_elsewhere : cache_key cr.meta.namespace cr.spec.docker_host_ref ≢ default_key
  stored_elsewhere = rw bare (keys_differ cr.meta.namespace)

  host_tls-Misses : (host : DockerHost) → Keeps Forgets (host_tls env cr.meta.namespace host)
  unfolding host_tls
  host_tls-Misses host = search misses_rules depth 7

  connect-Misses : (host : DockerHost) → Keeps Forgets (connect env cr host)
  unfolding connect open_client
  connect-Misses host = search (misses_rules, host_tls-Misses, stored_elsewhere) depth 9

  local-Misses : Keeps Forgets (local_client env)
  unfolding local_client open_client
  local-Misses = search misses_rules depth 7

  resolve_host-Misses : (name : String) → Keeps Forgets (resolve_host env cr name)
  unfolding resolve_host fallback default_client
  resolve_host-Misses name = search (misses_rules, connect-Misses, local-Misses) depth 9

  get_docker_client-resolve :
      (w : World W) → Forgets w → get_docker_client env cr w ≡ resolve_host env cr "default" w
  unfolding get_docker_client cache_load given ◌>>=◌
  get_docker_client-resolve w h = rw (bare, h) refl

  -- For a container without a host reference, a cache with no entry for the host `default` gets none: every
  -- call looks the host up again, and afterwards the cache has still no entry for it, whatever client the
  -- call opened and stored.
  pub get_docker_client-forgets :
      (w : World W)
      → find_key (cache_key cr.meta.namespace "default") w.cache ≡ none
      → (get_docker_client env cr w ≡ resolve_host env cr "default" w)
        × (find_key (cache_key cr.meta.namespace "default") (get_docker_client env cr w).1.cache
            ≡ none)
  get_docker_client-forgets w h =
      let same = get_docker_client-resolve w h in
      (same, rw same ((resolve_host-Misses "default").at w h))
