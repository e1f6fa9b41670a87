-- ===== src/JobController/Creation.antt =====
-- The order of the calls of `createAndStartContainer`.
use k8s_docker_operator.Prelude.{
  ◌≡◌, refl, ap, ◌∙◌, sym, String, List, [], ◌∷◌, ◌++◌, subst, append_assoc, append-nil, All, none,
  map,
}
use k8s_docker_operator.Prelude.Text.{◌<>◌}
use k8s_docker_operator.Exec.{Result, ok, pure, lift, given, ◌>>=◌}
use k8s_docker_operator.Exec.Keeps.{Keeps}
use k8s_docker_operator.Exec.Inversion.{bind_ok, bind_ensures, pure_ok, pure_state}
use k8s_docker_operator.Api.Container.{SecretVolume, EnvVar}
use k8s_docker_operator.Api.Meta.{Secret}
use k8s_docker_operator.Api.Job.{DockerJob}
use k8s_docker_operator.Outside.Docker.{Client}
use k8s_docker_operator.Outside.Calls.{
  Env, World, Effect, ask, act, image_pulled, container_created, container_started,
  container_copied,
}
use k8s_docker_operator.Outside.Trace.{Still, still_rules, trace-act}
use k8s_docker_operator.Common.Secrets.{
  get_secret_value, get_auth_config, upload_secret_to_container, tar_entry, relative,
}
use k8s_docker_operator.JobController.Create.{
  container_name, secret_ref, env_value, job_config, job_host_config, resolve_env, pull_auth,
  upload_all, prepare_container, create_and_start_container,
}

module _ {W : Type 0} where
  abbrev trace_of : World W → List Effect
  trace_of w = w.trace

  module _ {A : Type 0} where
    abbrev answer : Result A × World W → Result A
    answer r = r.0

    abbrev state_of : Result A × World W → World W
    state_of r = r.1

    both : {r : Result A × World W} {a : A} {w : World W} → r.0 ≡ ok a → r.1 ≡ w → r ≡ (ok a, w)
    both p q = λ i. (p i, q i)

    trace-ask : (f : W → Result A × W) (w : World W) → (ask f w).1.trace ≡ w.trace
    unfolding ask
    trace-ask f w = refl

    answer-act : (e : Effect) (f : W → Result A × W) (w : World W) → (act e f w).0 ≡ (f w.outside).0
    unfolding act
    answer-act e f w = refl

    abbrev calls : Result A × World W → List Effect
    calls r = r.1.trace

module _ {W F : Type 0} (env : Env W F) where
  env_value-Still :
      (t : List Effect) (ns : String) (ev : EnvVar) → Keeps (Still t) (env_value env ns ev)
  unfolding env_value get_secret_value
  env_value-Still t ns ev = search still_rules

  resolve_env-Still :
      (t : List Effect) (ns : String) (out : List String) (evs : List EnvVar)
      → Keeps (Still t) (resolve_env env ns out evs)
  unfolding resolve_env
  resolve_env-Still t ns out [] = search still_rules
  resolve_env-Still t ns out (ev ∷ evs) =
      search (still_rules, env_value-Still, λ (o : List String). resolve_env-Still t ns o evs)

  pull_auth-Still : (t : List Effect) (job : DockerJob) → Keeps (Still t) (pull_auth env job)
  unfolding pull_auth get_auth_config
  pull_auth-Still t job = search still_rules depth 7

  -- Every environment variable that names no Secret is resolved to its literal value, in order,
  -- behind those that are given whole, and nothing outside is asked.
  pub resolve_env-literal :
      (ns : String) (out : List String) (evs : List EnvVar) (w : World W)
      → All (λ ev. secret_ref ev ≡ none) evs
      → resolve_env env ns out evs w ≡ (ok (out ++ map (λ ev. ev.name <> "=" <> ev.value) evs), w)
  unfolding resolve_env env_value given ◌>>=◌
  resolve_env-literal ns out [] w h = rw append-nil
  resolve_env-literal ns out (ev ∷ evs) w h = rw h.0 (
      resolve_env-literal ns (out ++ (ev.name <> "=" <> ev.value) ∷ []) evs w h.1
      ∙ rw append_assoc refl)

  -- The uploads `cs`, newest first, of Secret volumes into the container `id`: that of each volume, in order,
  -- is the archive of the Secret it names, as it was read just before.
  abbrev pub Uploads : Client → String → String → List SecretVolume → World W → List Effect → Type 0
  Uploads cli ns id [] w cs = cs ≡ []
  Uploads cli ns id (sv ∷ svs) w cs =
      (secret : Secret) × (archive : String) × (rest : List Effect) × ((env.secrets.get
          (record { namespace = ns; name = sv.secret_name }) w.outside).0
        ≡ ok secret)
      × (env.libs.tar (map (tar_entry env (relative sv.mount_path)) secret.data_entries)
          ≡ ok archive)
      × (cs ≡ rest ++ container_copied cli id archive ∷ [])
      × Uploads cli ns id svs
          (act (container_copied cli id archive) (env.docker.copy_to cli id archive)
            (ask (env.secrets.get (record { namespace = ns; name = sv.secret_name })) w).1).1
          rest

  upload_secret-copies :
      (cli : Client) (ns id : String) (sv : SecretVolume) (w : World W)
      → (upload_secret_to_container env cli ns sv id w).0 ≡ ok tt
      → (secret : Secret) × (archive : String) × ((env.secrets.get
            (record { namespace = ns; name = sv.secret_name })
            w.outside).0
          ≡ ok secret)
        × (env.libs.tar (map (tar_entry env (relative sv.mount_path)) secret.data_entries)
            ≡ ok archive)
        × ((upload_secret_to_container env cli ns sv id w).1
            ≡ (act
                (container_copied cli id archive)
                (env.docker.copy_to cli id archive)
                (ask (env.secrets.get (record { namespace = ns; name = sv.secret_name })) w).1).1)
  unfolding upload_secret_to_container
  upload_secret-copies cli ns id sv w h =
      let (secret, got, e) = bind_ok _ _ w tt h in
      let (archive, packed, e') =
        bind_ok _ _ (ask (env.secrets.get (record { namespace = ns; name = sv.secret_name })) w).1
          tt (ap answer (sym e) ∙ h) in
      (
        secret,
        archive,
        (unfold ask in got),
        (unfold lift in packed),
        ap state_of (e ∙ e') ∙ (unfold lift in refl),
      )

  upload_all-copies :
      (cli : Client) (ns id : String) (svs : List SecretVolume) (w : World W)
      → (upload_all env cli ns id svs w).0 ≡ ok tt
      → (cs : List Effect) × ((upload_all env cli ns id svs w).1.trace ≡ cs ++ w.trace)
        × Uploads cli ns id svs w cs
  unfolding upload_all
  upload_all-copies cli ns id [] w h = ([], (unfold pure in refl), refl)
  upload_all-copies cli ns id (sv ∷ svs) w h =
      let (u, got, e) = bind_ok _ _ w tt h in
      let (secret, archive, read, packed, e') = upload_secret-copies cli ns id sv w got in
      let (cs, cst, uploads) =
        upload_all-copies cli ns id svs (upload_secret_to_container env cli ns sv id w).1
          (ap answer (sym e) ∙ h) in
      (
        cs ++ container_copied cli id archive ∷ [],
        ap calls e
            ∙ cst
            ∙ ap (λ s. cs ++ trace_of s) e'
            ∙ ap (λ t. cs ++ t) (trace-act _ _ _)
            ∙ ap (λ t. cs ++ container_copied cli id archive ∷ t) (trace-ask _ w)
            ∙ sym (append_assoc cs (container_copied cli id archive ∷ []) w.trace),
        (
          secret,
          archive,
          cs,
          read,
          packed,
          refl,
          subst (λ s. Uploads cli ns id svs s cs) e' uploads,
        ),
      )

  -- What `createAndStartContainer` did from `w` up to the container's creation as `id`, and the calls of it.
  abbrev pub Prepared : Client → DockerJob → World W → String → List Effect → Type 0
  Prepared cli job w id calls =
      (auth : String) × (out : List String) × (cs : List Effect) × (s₁ : World W) × (s₃ : World W)
      × (pull_auth env job w ≡ (ok auth, s₁))
      × (resolve_env env job.meta.namespace job.spec.env job.spec.env_vars
            (act (image_pulled cli job.spec.image auth) (env.docker.pull cli job.spec.image auth)
              s₁).1
          ≡ (ok out, s₃))
      × ((env.docker.create cli (job_config job out) (job_host_config env job) (container_name job)
            s₃.outside).0
          ≡ ok id)
      × Uploads cli job.meta.namespace id job.spec.secret_volumes
          (act
            (container_created cli (job_config job out) (job_host_config env job)
              (container_name job))
            (env.docker.create cli (job_config job out) (job_host_config env job)
              (container_name job))
            s₃).1
          cs
      × (calls
          ≡ cs
            ++ container_created cli (job_config job out) (job_host_config env job)
                (container_name job)
              ∷ image_pulled cli job.spec.image auth
              ∷ w.trace)

  prepare_container-order :
      (cli : Client) (job : DockerJob) (w : World W) (id : String)
      → (prepare_container env cli job w).0 ≡ ok id
      → Prepared cli job w id (prepare_container env cli job w).1.trace
  unfolding prepare_container
  prepare_container-order cli job w id =
      let Q = λ (s : World W). Prepared cli job w id s.trace in
      bind_ensures Q _ _ w id (λ auth s₁ got₁ e₁. bind_ensures Q _ _ s₁ id (λ _ s₂ _ e₂.
        bind_ensures Q _ _ s₂ id (λ out s₃ got₃ e₃. bind_ensures Q _ _ s₃ id (λ id' s₄ got₄ e₄.
          bind_ensures Q _ _ s₄ id (λ _ s₅ copied e₅ returned.
            let ns = job.meta.namespace in
            let (cs, uploaded, uploads) =
              upload_all-copies cli ns id' job.spec.secret_volumes s₄ copied in
            let before : s₃.trace ≡ image_pulled cli job.spec.image auth ∷ w.trace =
              ap trace_of (sym e₃)
              ∙ (resolve_env-Still s₂.trace ns job.spec.env job.spec.env_vars).at s₂ refl
              ∙ (ap trace_of (sym e₂) ∙ trace-act _ _ _)
              ∙ ap (λ t. image_pulled cli job.spec.image auth ∷ t)
                  (ap trace_of (sym e₁) ∙ (pull_auth-Still w.trace job).at w refl) in
            let whole =
              ap trace_of (sym e₅)
              ∙ uploaded
              ∙ ap (λ t. cs ++ t)
                  (ap trace_of (sym e₄)
                    ∙ trace-act _ _ _
                    ∙ ap
                        (λ t.
                          container_created cli (job_config job out) (job_host_config env job)
                            (container_name job)
                          ∷ t)
                        before) in
            let same = pure_ok id' s₅ id returned in
            (
              auth,
              out,
              cs,
              s₁,
              s₃,
              both got₁ e₁,
              subst (λ s. resolve_env env ns job.spec.env job.spec.env_vars s ≡ (ok out, s₃))
                  (sym e₂) (both got₃ e₃),
              sym (answer-act _ _ s₃) ∙ got₄ ∙ ap ok same,
              subst (λ s. Uploads cli ns id job.spec.secret_volumes s cs) (sym e₄)
                  (subst (λ i. Uploads cli ns i job.spec.secret_volumes s₄ cs) same uploads),
              (ap trace_of (pure_state id' s₅) ∙ whole),
            ))))))

  -- If `createAndStartContainer` returns with no error, its calls were, first to last: one pull of the
  -- job's image, with the authentication found, one creation under the container's name, with the job's
  -- configuration and the variables as they were resolved after the pull, one upload for each secret volume, in
  -- order, of the archive of the Secret it names, into the container by the id that the creation answered, and
  -- the start of the container by that id.
  pub create_and_start_container-order :
      (cli : Client) (job : DockerJob) (w : World W)
      → (create_and_start_container env cli job w).0 ≡ ok tt
      → (id : String) × (earlier : List Effect) × Prepared cli job w id earlier
        × ((create_and_start_container env cli job w).1.trace ≡ container_started cli id ∷ earlier)
  unfolding create_and_start_container
  create_and_start_container-order cli job w h =
      let (id, prepared, e) = bind_ok _ _ w tt h in
      (
        id,
        (prepare_container env cli job w).1.trace,
        prepare_container-order cli job w id prepared,
        ap calls e ∙ trace-act _ _ _,
      )
