-- ===== src/DeploymentController/Owners.antt =====
-- Whose containers a pass of the deployment controller touches.
use k8s_docker_operator.Prelude.{
  ℕ, zero, suc, ◌≡◌, refl, sym, ap, subst, ◌∙◌, String, some, List, [], ◌∷◌, Bool, Bool-cases,
  Option-cases, true, inl, inr, length, get_elem?, ltb, All, arith, ◌-◌,
}
use k8s_docker_operator.Prelude.Int.{ℤ, pos, negsuc, eqb_ℤ}
use k8s_docker_operator.Exec.{plain, raise, given}
use k8s_docker_operator.Exec.Keeps.{
  Keeps, Keeps-bind, Keeps-bind_result, Keeps-given, Keeps-pure, Keeps-raise,
}
use k8s_docker_operator.Exec.Inversion.{bind_ok, pure_ok}
use k8s_docker_operator.Api.Container.{DockerContainer}
use k8s_docker_operator.Api.Deployment.{DockerDeployment}
use k8s_docker_operator.Outside.Calls.{
  Env, World, Effect, object_created, object_deleted, deployment_status_updated,
}
use k8s_docker_operator.Outside.Trace.{Traced, Traced-act, Traced-ask}
use k8s_docker_operator.DeploymentController.Scaling.{
  is_controlled_by, owned_by, older, victim, draw, random_string, letter_runes, container_for,
  construct_container, scale_up, delete_container, scale_down, remove_newest, scale_by, scale,
  report_available, scale_to_owned, reconcile_deployment,
}

abbrev IsOwned : DockerDeployment → DockerContainer → Type 0
IsOwned deploy c = is_controlled_by deploy c ≡ true

owned_by-All :
    (deploy : DockerDeployment) (children : List DockerContainer)
    → All (IsOwned deploy) (owned_by deploy children)
unfolding owned_by
owned_by-All deploy [] = tt
owned_by-All deploy (child ∷ children) = elim (Bool-cases (is_controlled_by deploy child)) [
  | inl own ↦ rw own (own, owned_by-All deploy children)
  | inr other ↦ rw other (owned_by-All deploy children)
]

get_elem?-All :
    {A : Type 0} (P : A → Type 0) (xs : List A) (i : ℕ) (x : A)
    → All P xs
    → get_elem? xs i ≡ some x
    → P x
get_elem?-All P [] i x h e = absurd (ground arith)
get_elem?-All P (y ∷ ys) zero x h e = let same : y ≡ x = cc in subst P same h.0
get_elem?-All P (y ∷ ys) (suc i) x h e = get_elem?-All P ys i x h.1 e

-- Of the containers of the cluster a pass creates those that are made for the deployment, and deletes
-- those that it controls.
abbrev pub IsItsOwn :
    {W F : Type 0} → Env W F → (ℕ → W → ℕ × W) → DockerDeployment → Effect → Type 0
IsItsOwn env intn deploy (object_created c) =
    (suffix : String) × (c ≡ container_for env intn deploy suffix)
IsItsOwn env intn deploy (object_deleted c) = is_controlled_by deploy c ≡ true
IsItsOwn env intn deploy (deployment_status_updated d) = d.meta ≡ deploy.meta
IsItsOwn env intn deploy _ = ⊥

module _ {W F : Type 0} (env : Env W F) (intn : ℕ → W → ℕ × W) (deploy : DockerDeployment) where
  abbrev Own : World W → Type 0
  Own = Traced (IsItsOwn env intn deploy)

  draw-Own : (n : ℕ) → Keeps Own (draw env intn n)
  unfolding draw
  draw-Own n = record { at = λ w h. h }

  random_string-Own : (n : ℕ) → Keeps Own (random_string env intn n)
  unfolding random_string
  random_string-Own zero = Keeps-pure ""
  random_string-Own (suc n) = Keeps-bind _ _ (draw-Own 36) (λ i.
      Keeps-bind _ _
        (Keeps-given (get_elem? letter_runes i) _ _ (λ l. Keeps-pure l) (Keeps-raise _))
        (λ letter. Keeps-bind _ _ (random_string-Own n) (λ rest. Keeps-pure _)))

  scale_up-Own : (n : ℕ) → Keeps Own (scale_up env intn deploy n)
  unfolding scale_up construct_container
  scale_up-Own zero = Keeps-pure tt
  scale_up-Own (suc n) =
      Keeps-bind _ _
        (Keeps-bind_result _ _ (Keeps-bind _ _ (random_string-Own 5) (λ suffix. Keeps-pure _))
          (λ c s built.
            let (suffix, drawn, e) = bind_ok _ _ s c built in
            Traced-act _ (object_created c) _
              (suffix, sym (pure_ok _ _ c (ap (λ r. r.0) (sym e) ∙ built)))))
        (λ _. scale_up-Own n)

  victim-IsOwned :
      (owned : List DockerContainer) (i : ℕ) (v : DockerContainer)
      → All (IsOwned deploy) owned
      → victim owned i ≡ some v
      → is_controlled_by deploy v ≡ true
  unfolding victim
  victim-IsOwned owned i v h e = elim (Bool-cases (ltb i (length owned))) [
    | inl below ↦ get_elem?-All (IsOwned deploy) owned (length owned - 1 - i) v h (rw below at e)
    | inr out ↦ absurd (ground arith)
  ]

  delete_at-Own :
      (owned : List DockerContainer) (i : ℕ)
      → All (IsOwned deploy) owned
      → Keeps Own
          (given (victim owned i) (delete_container env intn) (raise (plain "index out of range")))
  unfolding given
  delete_at-Own owned i h = elim (Option-cases (victim owned i)) [
    | inl out ↦ rw out (Keeps-raise _)
    | inr (v, at) ↦ rw at (Traced-act _ (object_deleted v) _ (victim-IsOwned owned i v h at))
  ]

  scale_down-Own :
      (owned : List DockerContainer) (i n : ℕ)
      → All (IsOwned deploy) owned
      → Keeps Own (scale_down env intn owned i n)
  unfolding scale_down
  scale_down-Own owned i zero h = Keeps-pure tt
  scale_down-Own owned i (suc n) h =
      Keeps-bind _ _ (delete_at-Own owned i h) (λ _. scale_down-Own owned (suc i) n h)

  remove_newest-Own :
      (owned : List DockerContainer) (n : ℤ)
      → All (IsOwned deploy) owned
      → Keeps Own (remove_newest env intn owned n)
  unfolding remove_newest
  remove_newest-Own owned (pos n) h = scale_down-Own owned 0 n h
  remove_newest-Own owned (negsuc n) h = Keeps-pure tt

  scale_by-Own :
      (owned : List DockerContainer) (d : ℤ)
      → All (IsOwned deploy) owned
      → Keeps Own (scale_by env intn deploy owned d)
  unfolding scale_by
  scale_by-Own owned (pos n) h = scale_up-Own n
  scale_by-Own owned (negsuc n) h = remove_newest-Own owned _ h

  report-Own : (available : ℤ) → Keeps Own (report_available env intn deploy available)
  unfolding report_available
  report-Own available = elim (Bool-cases (eqb_ℤ deploy.status.available_replicas available)) [
    | inl same ↦ rw same (Keeps-pure tt)
    | inr new ↦ rw new (Keeps-bind _ _ (Traced-act _ _ _ refl) (λ _. Keeps-pure tt))
  ]

  module _
      (sort : (DockerContainer → DockerContainer → Bool)
        → List DockerContainer
        → List DockerContainer) where
    -- Sorting brings no new element in.
    abbrev pub IsRearranging : Type 0
    IsRearranging =
        (less : DockerContainer → DockerContainer → Bool) (p : DockerContainer → Bool)
        (cs : List DockerContainer)
        → All (λ c. p c ≡ true) cs
        → All (λ c. p c ≡ true) (sort less cs)

    scale_to_owned-Own :
        IsRearranging
        → (children : List DockerContainer)
        → Keeps Own (scale_to_owned env intn sort deploy children)
    unfolding scale_to_owned scale
    scale_to_owned-Own law children =
        Keeps-bind _ _
          (scale_by-Own _ _ (
            law older (is_controlled_by deploy) (owned_by deploy children)
              (owned_by-All deploy children)))
          (λ _. Keeps-bind _ _ (report-Own _) (λ _. Keeps-pure _))

    -- Where sorting brings no new element in, a pass over a deployment, with no calls noted before it,
    -- creates only containers made for the deployment, deletes only containers that it controls, and writes
    -- the status of no other deployment; it makes no other call, whether or not an error ends it.
    pub reconcile_deployment-IsItsOwn :
        IsRearranging
        → (w : World W) → w.trace ≡ []
        → All (IsItsOwn env intn deploy) (reconcile_deployment env intn sort deploy w).1.trace
    unfolding reconcile_deployment
    reconcile_deployment-IsItsOwn law w fresh =
        (Keeps-given deploy.meta.deletion_timestamp _ _ (λ _. Keeps-pure _)
            (Keeps-bind _ _ (Traced-ask _ _) (scale_to_owned-Own law))).at
          w (rw fresh tt)
