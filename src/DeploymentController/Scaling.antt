-- ===== src/DeploymentController/Scaling.antt =====
-- internal/controller/dockerdeployment/controller.go. `intn` is `rand.Intn`, `sort` is `sort.Slice` with
-- its order as the argument. A panic is an error here.
use k8s_docker_operator.Prelude.{
  ℕ, zero, suc, ◌-◌, String, Option, none, some, List, [], ◌∷◌, Bool, false, str_eq, length,
  get_elem?, ltb, if◌then◌else◌,
}
use k8s_docker_operator.Prelude.Int.{ℤ, pos, negsuc, ◌+ℤ◌, ◌-ℤ◌, int32, ltb_ℤ, eqb_ℤ}
use k8s_docker_operator.Prelude.Text.{◌<>◌}
use k8s_docker_operator.Exec.{Exec, ok, err, plain, pure, raise, handle, given, ◌>>=◌, ◌>>◌}
use k8s_docker_operator.Api.Meta.{Key, Meta}
use k8s_docker_operator.Api.Container.{DockerContainer}
use k8s_docker_operator.Api.Deployment.{DockerDeployment}
use k8s_docker_operator.Outside.Calls.{
  Env, World, ask, act, object_created, object_deleted, deployment_status_updated,
}
use k8s_docker_operator.Outside.Requeue.{Outcome, done, again}

-- metav1.IsControlledBy
unfoldable pub is_controlled_by : DockerDeployment → DockerContainer → Bool
is_controlled_by deploy child = given child.meta.controller (str_eq deploy.meta.uid) false

-- The loop over the children of the namespace.
unfoldable pub owned_by : DockerDeployment → List DockerContainer → List DockerContainer
owned_by deploy [] = []
owned_by deploy (child ∷ children) =
    let rest = owned_by deploy children in
    if is_controlled_by deploy child then child ∷ rest else rest

abbrev pub older : DockerContainer → DockerContainer → Bool
older a b = ltb_ℤ a.meta.creation_timestamp b.meta.creation_timestamp

unfoldable pub desired_replicas : DockerDeployment → ℤ
desired_replicas deploy = given deploy.spec.replicas (λ n. n) (pos 1)

-- The last loop of `Reconcile`, after what is counted already.
unfoldable pub count_running : ℤ → List DockerContainer → ℤ
count_running n [] = n
count_running n (c ∷ cs) =
    let rest = count_running n cs in
    let more = count_running (int32 (n +ℤ pos 1)) cs in
    if str_eq c.status.state "running" then more else rest

-- `ownedContainers[len(ownedContainers)-1-i]`
unfoldable pub victim : List DockerContainer → ℕ → Option DockerContainer
victim owned i = if ltb i (length owned) then get_elem? owned (length owned - 1 - i) else none

abbrev pub letters_of : String → List String
letters_of String.[] = []
letters_of (String.◌∷◌ c s) = String.◌∷◌ c "" ∷ letters_of s

abbrev pub letter_runes : List String
letter_runes = letters_of "abcdefghijklmnopqrstuvwxyz0123456789"

-- 10 * time.Second
abbrev pub rescale_delay : ℤ
rescale_delay = pos 10000000000

module _ {W F : Type 0} (env : Env W F) (intn : ℕ → W → ℕ × W) where
  unfoldable pub draw : ℕ → Exec (World W) ℕ
  draw n w = let (i, o) = intn n w.outside in (ok i, record w { outside = o })

  unfoldable pub random_string : ℕ → Exec (World W) String
  random_string zero = pure ""
  random_string (suc n) = do
    i ← draw 36
    letter ← given (get_elem? letter_runes i) pure (raise (plain "index out of range"))
    rest ← random_string n
    pure (letter <> rest)

  -- `constructContainer` from the suffix on. The error of `SetControllerReference` is dropped.
  unfoldable pub container_for : DockerDeployment → String → DockerContainer
  container_for deploy suffix =
      let name = deploy.meta.name <> "-" <> suffix in
      let template = deploy.spec.template in
      let bare : Meta = record {
        name = name;
        namespace = deploy.meta.namespace;
        uid = "";
        labels = some (given template.metadata.labels (λ m. m) []);
        finalizers = [];
        creation_timestamp = pos 0;
        deletion_timestamp = none;
        controller = none;
      } in
      let own_name = template.spec.container_name in
      record {
        meta = elim (env.libs.set_controller deploy.meta bare) [ ok m ↦ m | err _ ↦ bare ];
        spec = record template.spec {
          container_name = if str_eq own_name "" then name else own_name <> "-" <> suffix;
        };
        status = record { id = ""; state = ""; health = ""; ipv4 = "" };
      }

  unfoldable pub construct_container : DockerDeployment → Exec (World W) DockerContainer
  construct_container deploy = random_string 5 >>= λ suffix. pure (container_for deploy suffix)

  abbrev pub create_container : DockerContainer → Exec (World W) DockerContainer
  create_container c = act (object_created c) (env.containers.create c)

  unfoldable pub scale_up : DockerDeployment → ℕ → Exec (World W) (Unit {0})
  scale_up deploy zero = pure tt
  scale_up deploy (suc n) = (construct_container deploy >>= create_container) >> scale_up deploy n

  abbrev pub delete_container : DockerContainer → Exec (World W) (Unit {0})
  delete_container c = act (object_deleted c) (env.containers.delete c)

  -- The loop from the index `i`, for `n` more victims.
  unfoldable pub scale_down : List DockerContainer → ℕ → ℕ → Exec (World W) (Unit {0})
  scale_down owned i zero = pure tt
  scale_down owned i (suc n) =
      given (victim owned i) delete_container (raise (plain "index out of range"))
      >> scale_down owned (suc i) n

  -- `removeCount := int(-diff)`, which is still negative for the least int32.
  unfoldable pub remove_newest : List DockerContainer → ℤ → Exec (World W) (Unit {0})
  remove_newest owned (pos n) = scale_down owned 0 n
  remove_newest owned (negsuc n) = pure tt

  -- The test of the sign of `diff`, and the loops for it: `for i := 0; i < int(diff); i++`.
  unfoldable pub scale_by : DockerDeployment → List DockerContainer → ℤ → Exec (World W) (Unit {0})
  scale_by deploy owned (pos n) = scale_up deploy n
  scale_by deploy owned (negsuc n) = remove_newest owned (int32 (pos (suc n)))

  unfoldable pub scale : DockerDeployment → List DockerContainer → Exec (World W) (Unit {0})
  scale deploy owned =
      scale_by deploy owned (int32 (desired_replicas deploy -ℤ int32 (pos (length owned))))

  unfoldable pub report_available : DockerDeployment → ℤ → Exec (World W) (Unit {0})
  report_available deploy available =
      let changed = record deploy { status = record { available_replicas = available } } in
      let update =
        act (deployment_status_updated changed) (env.deployments.update_status changed)
        >> pure tt in
      if eqb_ℤ deploy.status.available_replicas available then pure tt else update

  module _
      (sort : (DockerContainer → DockerContainer → Bool)
        → List DockerContainer
        → List DockerContainer) where
    unfoldable pub scale_to_owned : DockerDeployment → List DockerContainer → Exec (World W) Outcome
    scale_to_owned deploy children = do
      let owned = sort older (owned_by deploy children)
      scale deploy owned
      report_available deploy (count_running (pos 0) owned)
      pure (again rescale_delay)

    unfoldable pub reconcile_deployment : DockerDeployment → Exec (World W) Outcome
    reconcile_deployment deploy =
        given deploy.meta.deletion_timestamp (λ _. pure done)
          (ask (env.containers.list deploy.meta.namespace) >>= scale_to_owned deploy)

    -- `client.IgnoreNotFound`
    unfoldable pub reconcile : Key → Exec (World W) Outcome
    reconcile key =
        handle (ask (env.deployments.get key)) reconcile_deployment
          (λ e. if e.not_found then pure done else raise e)
