-- ===== src/ContainerController/Fresh.antt =====
-- A container that `createAndStartContainer` made is not made again by the passes after it.
use k8s_docker_operator.Prelude.{
  ◌≡◌, refl, sym, ap, ◌∙◌, true, false, String, some, List, [], ◌∷◌, ◌++◌, All, append_assoc,
  append-nil, if◌then◌else◌, ◌⊎◌, inl, inr,
}
use k8s_docker_operator.Prelude.Text.{◌<>◌}
use k8s_docker_operator.Exec.{Result, ok, given}
use k8s_docker_operator.Exec.Keeps.{Keeps, Keeps-bind, Keeps-bind_result}
use k8s_docker_operator.Exec.Inversion.{bind_ok, pure_ok}
use k8s_docker_operator.Api.Container.{DockerContainer, DockerContainerSpec, EnvVar, SecretVolume}
use k8s_docker_operator.Outside.Docker.{Client, Config, Inspected}
use k8s_docker_operator.Outside.Calls.{
  Env, Libraries, World, Effect, act, image_pulled, container_created, container_copied,
  container_started,
}
use k8s_docker_operator.Outside.Trace.{Traced, traced_rules, Traced-act}
use k8s_docker_operator.Common.Secrets.{
  get_secret_value, get_auth_config, upload_secret_to_container,
}
use k8s_docker_operator.JobController.Create.{env_value, resolve_env, upload_all}
use k8s_docker_operator.ContainerController.Drift.{is_none_given, needs_recreate}
use k8s_docker_operator.ContainerController.Settled.{IsRearranging, needs_recreate-IsMadeFor}
use k8s_docker_operator.ContainerController.Create.{
  container_config, container_host_config, pull_auth, make_container, fill_and_start,
  create_and_start_container,
}

-- What Docker reports of a container that was created with `config`, from an image that has a command and
-- an environment of its own: the command stands in for a missing one, the environment comes behind.
abbrev pub reported : List String → List String → Config → Config
reported cmd more config = record config {
  cmd = if is_none_given config.cmd then cmd else config.cmd;
  env = config.env ++ more;
}

given_first :
    (asked cmd : List String)
    → (is_none_given asked ≡ true) ⊎ ((if is_none_given asked then cmd else asked) ≡ asked)
given_first [] cmd = inl refl
given_first (a ∷ rest) cmd = inr refl

module _ {F : Type 0} (libs : Libraries F) (sort : List String → List String) where
  -- If the call is a creation, no image and no inspection of what it created makes `spec` differ from it.
  abbrev pub IsLasting : DockerContainerSpec → Effect → Type 0
  IsLasting spec (container_created _ config host _) =
      (inspected : Inspected) (cmd more : List String)
      → needs_recreate libs sort
          (record inspected { config = some (reported cmd more config); host_config = some host })
          spec
        ≡ false
  IsLasting spec _ = Unit

module _ {W F : Type 0} (env : Env W F) where
  -- What is resolved already stays in front.
  resolve_env-front :
      (ns : String) (done out : List String) (evs : List EnvVar) (w : World W)
      → (resolve_env env ns done evs w).0 ≡ ok out
      → (more : List String) × (out ≡ done ++ more)
  unfolding resolve_env
  resolve_env-front ns done out [] w h = ([], sym (pure_ok done w out h) ∙ sym (append-nil done))
  resolve_env-front ns done out (ev ∷ evs) w h =
      let (val, got, e) = bind_ok _ _ w out h in
      let text = ev.name <> "=" <> val in
      let (more, same) =
        resolve_env-front ns (done ++ text ∷ []) out evs (env_value env ns ev w).1
          (ap (λ (r : Result (List String) × World W). r.0) (sym e) ∙ h) in
      (text ∷ more, same ∙ append_assoc done (text ∷ []) more)

  module _ (sort : List String → List String) (spec : DockerContainerSpec) where
    abbrev Lasting : World W → Type 0
    Lasting = Traced (IsLasting env.libs sort spec)

    env_value-Lasting : (ns : String) (ev : EnvVar) → Keeps Lasting (env_value env ns ev)
    unfolding env_value get_secret_value
    env_value-Lasting ns ev = search traced_rules

    resolve_env-Lasting :
        (ns : String) (out : List String) (evs : List EnvVar)
        → Keeps Lasting (resolve_env env ns out evs)
    unfolding resolve_env
    resolve_env-Lasting ns out [] = search traced_rules
    resolve_env-Lasting ns out (ev ∷ evs) =
        search (traced_rules, env_value-Lasting, λ (o : List String). resolve_env-Lasting ns o evs)

    pull_auth-Lasting : (cr : DockerContainer) → Keeps Lasting (pull_auth env cr)
    unfolding pull_auth get_auth_config
    pull_auth-Lasting cr = search traced_rules depth 7

    -- A call that is no creation.
    other-Lasting :
        {A : Type 0} (e : Effect) (f : W → Result A × W)
        → IsLasting env.libs sort spec e
        → Keeps Lasting (act e f)
    other-Lasting e f other = Traced-act (IsLasting env.libs sort spec) e f other

    upload_secret-Lasting :
        (cli : Client) (ns id : String) (sv : SecretVolume)
        → Keeps Lasting (upload_secret_to_container env cli ns sv id)
    unfolding upload_secret_to_container
    upload_secret-Lasting cli ns id sv = search (
      traced_rules,
      λ (archive : String).
          other-Lasting (container_copied cli id archive) (env.docker.copy_to cli id archive) tt,
    )

    upload_all-Lasting :
        (cli : Client) (ns id : String) (svs : List SecretVolume)
        → Keeps Lasting (upload_all env cli ns id svs)
    unfolding upload_all
    upload_all-Lasting cli ns id [] = search traced_rules
    upload_all-Lasting cli ns id (sv ∷ svs) =
        Keeps-bind (upload_secret_to_container env cli ns sv id) _
          (upload_secret-Lasting cli ns id sv) (λ _. upload_all-Lasting cli ns id svs)

    fill_and_start-Lasting :
        (cli : Client) (cr : DockerContainer) (id : String)
        → Keeps Lasting (fill_and_start env cli cr id)
    unfolding fill_and_start
    fill_and_start-Lasting cli cr id =
        Keeps-bind _ _ (upload_all-Lasting cli cr.meta.namespace id cr.spec.secret_volumes)
          (λ _. other-Lasting (container_started cli id) (env.docker.start cli id) tt)

  module _ (sort : List String → List String) (law : IsRearranging env.libs sort)
      (cr : DockerContainer)
      (lower : env.libs.to_lower (env.libs.to_lower cr.spec.restart_policy)
        ≡ env.libs.to_lower cr.spec.restart_policy) where
    creation-IsLasting :
        (cli : Client) (name : String) (resolved : List String)
        → IsLasting env.libs sort cr.spec (
            container_created cli
              (container_config env.libs cr (cr.spec.env ++ resolved))
              (container_host_config env.libs cr)
              name)
    unfolding given
    creation-IsLasting cli name resolved inspected cmd more =
        needs_recreate-IsMadeFor env.libs sort law cr.spec _ _ _ lower refl refl (
          refl,
          given_first cr.spec.command cmd,
          (resolved ++ more, append_assoc cr.spec.env resolved more),
          refl,
          refl,
        )

    make_container-Lasting :
        (cli : Client) → Keeps (Lasting sort cr.spec) (make_container env cli cr)
    unfolding make_container
    make_container-Lasting cli =
        Keeps-bind (pull_auth env cr) _ (pull_auth-Lasting sort cr.spec cr) (λ auth.
          Keeps-bind _ _ (other-Lasting sort cr.spec (image_pulled cli cr.spec.image auth) _ tt)
            (λ _.
              Keeps-bind_result _ _
                (resolve_env-Lasting sort cr.spec cr.meta.namespace cr.spec.env cr.spec.env_vars)
                (λ out v got.
                  let (resolved, front) =
                    resolve_env-front cr.meta.namespace cr.spec.env out cr.spec.env_vars v got in
                  Traced-act _ _ _
                    (rw front (creation-IsLasting cli cr.spec.container_name resolved)))))

    -- Where lower case is idempotent on the policy and sorting brings no new element in: if no creation noted so far
    -- gives a container that the spec would make again, then so it is after `createAndStartContainer`, be
    -- its end an error or not, whatever the image adds to the command and the environment and however the
    -- values of variables were resolved.
    pub create_and_start_container-IsLasting :
        (cli : Client) (w : World W)
        → All (IsLasting env.libs sort cr.spec) w.trace
        → All (IsLasting env.libs sort cr.spec) (create_and_start_container env cli cr w).1.trace
    unfolding create_and_start_container
    create_and_start_container-IsLasting cli w so_far =
        (Keeps-bind _ _ (make_container-Lasting cli)
            (λ id. fill_and_start-Lasting sort cr.spec cli cr id)).at
          w so_far
