-- ===== src/ServiceController/Tokens.antt =====
-- The token that the two ends of a tunnel share.
use k8s_docker_operator.Prelude.{ℕ, ◌≡◌, refl, sym, ap, ◌∙◌, String, some, List, ◌∷◌}
use k8s_docker_operator.Prelude.Text.{find_key}
use k8s_docker_operator.Exec.{Result, ok, branch, handle, given, pure, lift}
use k8s_docker_operator.Exec.Inversion.{pure_ok, bind_ensures, pure_state}
use k8s_docker_operator.Api.Meta.{Meta, Secret}
use k8s_docker_operator.Api.Service.{DockerService}
use k8s_docker_operator.Outside.Calls.{Env, World, Cluster, Effect, ask, secret_created}
use k8s_docker_operator.Outside.Trace.{trace-act}
use k8s_docker_operator.ServiceController.Auth.{
  secret_key, token_secret, random_token, create_token, ensure_tunnel_auth_secret,
}

module _ {W F : Type 0} (env : Env W F) (cluster : Cluster W) (ds : DockerService) where
  abbrev trace_of : World W → List Effect
  trace_of w = w.trace

  abbrev Created : String → List Effect → World W → Type 0
  Created token t w = (meta : Meta) × (w.trace ≡ secret_created (token_secret meta token) ∷ t)

  ensure-stored :
      (w : World W) (secret : Secret) (token : String)
      → (env.secrets.get (secret_key ds) w.outside).0 ≡ ok secret
      → find_key "token" secret.data_entries ≡ some token
      → ((ensure_tunnel_auth_secret env cluster ds w).0 ≡ ok token)
        × ((ensure_tunnel_auth_secret env cluster ds w).1.trace ≡ w.trace)
  unfolding ensure_tunnel_auth_secret handle branch ask given pure
  ensure-stored w secret token got has = rw (got, has) (refl, refl)

  find-token :
      (meta : Meta) (token : String)
      → find_key "token" (token_secret meta token).data_entries ≡ some token
  unfolding find_key
  find-token meta token = refl

  random_token-still : (n : ℕ) (w : World W) → (random_token env cluster n w).1.trace ≡ w.trace
  unfolding random_token
  random_token-still n w = refl

  lift-still : {A : Type 0} (r : Result A) (w : World W) → (lift r w).1.trace ≡ w.trace
  unfolding lift
  lift-still r w = refl

  create_token-Created :
      (w : World W) (token : String)
      → (create_token env cluster ds w).0 ≡ ok token
      → Created token w.trace (create_token env cluster ds w).1
  unfolding create_token
  create_token-Created w token = bind_ensures (Created token w.trace) _ _ w token (λ fresh s₁ _ e₁.
      bind_ensures (Created token w.trace) _ _ s₁ token (λ meta s₂ _ e₂.
        bind_ensures (Created token w.trace) _ _ s₂ token (λ _ s₃ _ e₃ returned. (
          meta,
          ap trace_of (pure_state fresh s₃)
              ∙ ap trace_of (sym e₃)
              ∙ trace-act _ _ _
              ∙ ap (λ t. secret_created (token_secret meta fresh) ∷ t)
                  (ap trace_of (sym e₂)
                    ∙ lift-still _ s₁
                    ∙ ap trace_of (sym e₁)
                    ∙ random_token-still 16 w)
              ∙ ap (λ x. secret_created (token_secret meta x) ∷ w.trace)
                  (pure_ok fresh s₃ token returned),
        ))))

  -- When a token is made, one Secret is created, and nothing else is changed; in every later world in
  -- which the API answers with that Secret, the same token is given, and nothing is changed.
  pub ensure-create :
      (w : World W) (token : String)
      → (create_token env cluster ds w).0 ≡ ok token
      → (secret : Secret) × ((create_token env cluster ds w).1.trace
          ≡ secret_created secret ∷ w.trace)
        × ((later : World W)
            → (env.secrets.get (secret_key ds) later.outside).0 ≡ ok secret
            → ((ensure_tunnel_auth_secret env cluster ds later).0 ≡ ok token)
              × ((ensure_tunnel_auth_secret env cluster ds later).1.trace ≡ later.trace))
  ensure-create w token made =
      let (meta, created) = create_token-Created w token made in
      (
        token_secret meta token,
        created,
        λ later got.
            ensure-stored later (token_secret meta token) token got (find-token meta token),
      )
