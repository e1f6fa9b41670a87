-- ===== src/HostController/Health.antt =====
-- What a check of a host leaves behind.
use k8s_docker_operator.Prelude.{◌≡◌, refl, ap, ◌∙◌, ◌⊎◌, inl, inr, Option, List, ◌∷◌}
use text.Mathlib.TextPositions.{eq_refl}
use k8s_docker_operator.Exec.{Error, Result, ok, err, branch, pure, raise, ◌>>=◌}
use k8s_docker_operator.Exec.Keeps.{Keeps}
use k8s_docker_operator.Api.Host.{DockerHost}
use k8s_docker_operator.Outside.Docker.{Client, TlsConfig}
use k8s_docker_operator.Outside.Calls.{Env, World, Effect, ask, act, client_opened, client_closed}
use k8s_docker_operator.Outside.Trace.{Still, still_rules}
use k8s_docker_operator.Outside.Requeue.{again}
use k8s_docker_operator.HostController.Ping.{
  ping_delay, ping_opts, observed, ping_tls, ping_and_close, ping_host, report, check_host,
}

module _ {W F : Type 0} (env : Env W F) where
  ping_tls-Still : (t : List Effect) (host : DockerHost) → Keeps (Still t) (ping_tls env host)
  unfolding ping_tls
  ping_tls-Still t host = search still_rules depth 7

  -- The calls of a ping: none, or the making of a client, and where it is made, its end.
  abbrev pub IsClosed : DockerHost → List Effect → Result (Unit {0}) × World W → Type 0
  IsClosed host t r =
      ((e : Error) × (r.0 ≡ err e) × (r.1.trace ≡ t))
      ⊎ ((tls : Option TlsConfig) × (o : W) × (((e : Error) × ((env.docker.new_client
                  (ping_opts host tls) o).0
                ≡ err e)
              × (r.0 ≡ err e)
              × (r.1.trace ≡ client_opened (ping_opts host tls) ∷ t))
            ⊎ ((cli : Client) × ((env.docker.new_client (ping_opts host tls) o).0 ≡ ok cli)
                × (r.1.trace ≡ client_closed cli ∷ client_opened (ping_opts host tls) ∷ t))))

  opened-IsClosed :
      (host : DockerHost) (t : List Effect) (tls : Option TlsConfig) (o : W) (r : Result Client)
      (v : World W)
      → (env.docker.new_client (ping_opts host tls) o).0 ≡ r
      → v.trace ≡ client_opened (ping_opts host tls) ∷ t
      → IsClosed host t (branch (ping_and_close env) raise r v)
  unfolding branch raise ping_and_close ask act
  opened-IsClosed host t tls o (ok cli) v made h =
      inr (tls, o, inr (cli, made, ap (λ l. client_closed cli ∷ l) h))
  opened-IsClosed host t tls o (err e) v made h = inr (tls, o, inl (e, made, refl, h))

  tls-IsClosed :
      (host : DockerHost) (t : List Effect) (r : Result (Option TlsConfig)) (v : World W)
      → v.trace ≡ t
      → IsClosed host t (
          branch
            (λ tls.
              act (client_opened (ping_opts host tls)) (env.docker.new_client (ping_opts host tls))
              >>= ping_and_close env)
            raise
            r
            v)
  unfolding branch raise act ◌>>=◌
  tls-IsClosed host t (ok tls) v h =
      opened-IsClosed host t tls v.outside (env.docker.new_client (ping_opts host tls) v.outside).0
        (record v {
          outside = (env.docker.new_client (ping_opts host tls) v.outside).1;
          trace = client_opened (ping_opts host tls) ∷ v.trace;
        })
        refl (ap (λ l. client_opened (ping_opts host tls) ∷ l) h)
  tls-IsClosed host t (err e) v h = inl (e, refl, h)

  -- A ping makes at most one client, for the host's address, and the client that it made is closed,
  -- whether or not the daemon answers; without a client made the ping is an error.
  pub ping_host-IsClosed :
      (host : DockerHost) (w : World W) → IsClosed host w.trace (ping_host env host w)
  unfolding ping_host ◌>>=◌
  ping_host-IsClosed host w =
      tls-IsClosed host w.trace (ping_tls env host w).0 (ping_tls env host w).1
        ((ping_tls-Still w.trace host).at w refl)

  report-settled :
      (host : DockerHost) (r : Result (Unit {0})) (v : World W)
      → report env (observed host r) r v ≡ (ok (again ping_delay), v)
  unfolding report pure
  report-settled host (ok u) v = refl
  report-settled host (err e) v = rw eq_refl refl

  check_host-observed :
      (host : DockerHost) (r : Result (Unit {0})) (w : World W)
      → check_host env (observed host r) w
        ≡ report env (observed host r) (ping_host env host w).0 (ping_host env host w).1
  unfolding check_host ping_host ping_tls
  check_host-observed host (ok u) w = refl
  check_host-observed host (err e) w = refl

  -- Once the status of a host is the one observed, every later check whose ping ends the same way makes
  -- no call but those of the ping, and asks for the next check after thirty seconds.
  pub check_host-settles :
      (host : DockerHost) (r : Result (Unit {0})) (later : World W)
      → (ping_host env host later).0 ≡ r
      → check_host env (observed host r) later
        ≡ (ok (again ping_delay), (ping_host env host later).1)
  check_host-settles host r later same =
      check_host-observed host r later ∙ rw same (report-settled host r _)
