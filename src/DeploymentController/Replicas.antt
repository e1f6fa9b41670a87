-- ===== src/DeploymentController/Replicas.antt =====
-- How many containers a pass of the deployment controller leaves, and which.
use k8s_docker_operator.Prelude.{
  ℕ, zero, suc, ◌+◌, ◌-◌, ◌≤◌, ◌<◌, ◌≡◌, refl, sym, ap, ◌∙◌, String, some, List, [], ◌∷◌, ◌++◌, map,
  length, get_elem?, drop, All, All-append, length-append, arith, lt→ltb, leb, Bool-cases, inl, inr,
}
use k8s_docker_operator.Prelude.Int.{sub_ℕ, pos, ◌-ℤ◌, int32}
use k8s_docker_operator.Exec.{Exec, ok, plain, pure, raise, given, ◌>>=◌}
use k8s_docker_operator.Exec.Keeps.{Keeps, Keeps-bind, Keeps-given, Keeps-pure, Keeps-raise}
use k8s_docker_operator.Exec.Inversion.{bind_ok, bind_ensures, pure_ok, pure_state}
use k8s_docker_operator.Api.Container.{DockerContainer}
use k8s_docker_operator.Api.Deployment.{DockerDeployment}
use k8s_docker_operator.Outside.Calls.{Env, World, Effect, object_created, object_deleted}
use k8s_docker_operator.Outside.Trace.{Still, still_rules, trace-act}
use k8s_docker_operator.DeploymentController.Scaling.{
  letter_runes, desired_replicas, victim, draw, random_string, container_for, construct_container,
  create_container, scale_up, delete_container, scale_down, remove_newest, scale_by, scale,
}

drop_step :
    {A : Type 0} (xs : List A) (k : ℕ)
    → k < length xs
    → (x : A) × (get_elem? xs k ≡ some x) × (drop k xs ≡ x ∷ drop (suc k) xs)
drop_step [] k h = absurd (omega arith)
drop_step (x ∷ xs) zero h = (x, refl, refl)
drop_step (x ∷ xs) (suc k) h = drop_step xs k (omega arith)

drop-length : {A : Type 0} (xs : List A) → drop (length xs) xs ≡ []
drop-length [] = refl
drop-length (x ∷ xs) = drop-length xs

map_onto :
    {A B : Type 0} (f : A → B) (xs : List A) (x : A) (t : List B)
    → map f xs ++ f x ∷ t ≡ map f (xs ++ x ∷ []) ++ t
map_onto f [] x t = refl
map_onto f (y ∷ ys) x t = ap (λ l. f y ∷ l) (map_onto f ys x t)

length-zero : {A : Type 0} (xs : List A) → length xs ≡ 0 → xs ≡ []
length-zero [] h = refl
length-zero (x ∷ xs) h = absurd (omega arith)

difference :
    (r n : ℕ) → r < 2147483648 → n < 2147483648 → int32 (pos r -ℤ int32 (pos n)) ≡ sub_ℕ r n
unfolding int32 ◌-ℤ◌
difference r n small few = ground arith

removed : (n : ℕ) → n < 2147483648 → int32 (pos n) ≡ pos n
unfolding int32
removed n few = ground arith

victim-drop :
    (owned : List DockerContainer) (i : ℕ)
    → i < length owned
    → (v : DockerContainer) × (victim owned i ≡ some v)
      × (drop (length owned - suc i) owned ≡ v ∷ drop (length owned - i) owned)
unfolding victim
victim-drop owned i h =
    let (v, at, step) = drop_step owned (length owned - suc i) (omega arith) in
    let same : length owned - 1 - i ≡ length owned - suc i = omega arith in
    let next : suc (length owned - suc i) ≡ length owned - i = omega arith in
    (v, rw (lt→ltb i (length owned) h, same) at, step ∙ ap (λ k. v ∷ drop k owned) next)

module _ {W F : Type 0} (env : Env W F) (intn : ℕ → W → ℕ × W) where
  abbrev delete_at : List DockerContainer → ℕ → Exec (World W) (Unit {0})
  delete_at owned i =
      given (victim owned i) (delete_container env intn) (raise (plain "index out of range"))

  delete_at-trace :
      (owned : List DockerContainer) (i : ℕ) (v : DockerContainer) (w : World W)
      → victim owned i ≡ some v
      → (delete_at owned i w).1.trace ≡ object_deleted v ∷ w.trace
  unfolding given
  delete_at-trace owned i v w h = rw h (trace-act _ _ _)

  -- From a world in which the last `i` are deleted, the loop deletes the `n` before them.
  scale_down-deletes :
      (t : List Effect) (owned : List DockerContainer) (i n : ℕ) (w : World W)
      → i + n ≤ length owned
      → w.trace ≡ map object_deleted (drop (length owned - i) owned) ++ t
      → (scale_down env intn owned i n w).0 ≡ ok tt
      → (scale_down env intn owned i n w).1.trace
        ≡ map object_deleted (drop (length owned - (i + n)) owned) ++ t
  unfolding scale_down pure
  scale_down-deletes t owned i zero w fits before h =
      before ∙ ap (λ k. map object_deleted (drop (length owned - k) owned) ++ t) (omega arith)
  scale_down-deletes t owned i (suc n) w fits before h =
      bind_ensures
        (λ (s : World W).
          s.trace ≡ map object_deleted (drop (length owned - (i + suc n)) owned) ++ t)
        (delete_at owned i) _ w tt
        (λ _ s _ e returned.
          let (v, at, split) = victim-drop owned i (omega arith) in
          let now : s.trace ≡ map object_deleted (drop (length owned - suc i) owned) ++ t =
            ap (λ (x : World W). x.trace) (sym e)
            ∙ delete_at-trace owned i v w at
            ∙ ap (λ l. object_deleted v ∷ l) before
            ∙ ap (λ l. map object_deleted l ++ t) (sym split) in
          scale_down-deletes t owned (suc i) n s (omega arith) now returned
          ∙ ap (λ k. map object_deleted (drop (length owned - k) owned) ++ t) (omega arith))
        h

  -- A container that `constructContainer` can make.
  abbrev pub IsFor : DockerDeployment → DockerContainer → Type 0
  IsFor deploy c = (suffix : String) × (c ≡ container_for env intn deploy suffix)

  draw-Still : (t : List Effect) (n : ℕ) → Keeps (Still t) (draw env intn n)
  unfolding draw
  draw-Still t n = record { at = λ w h. h }

  random_string-Still : (t : List Effect) (n : ℕ) → Keeps (Still t) (random_string env intn n)
  unfolding random_string
  random_string-Still t zero = search still_rules
  random_string-Still t (suc n) = Keeps-bind _ _ (draw-Still t 36) (λ i.
      Keeps-bind _ _
        (Keeps-given (get_elem? letter_runes i) _ _ (λ l. Keeps-pure l) (Keeps-raise _))
        (λ letter. Keeps-bind _ _ (random_string-Still t n) (λ rest. search still_rules)))

  create_one :
      (deploy : DockerDeployment) (w : World W) (made : DockerContainer)
      → ((construct_container env intn deploy >>= create_container env intn) w).0 ≡ ok made
      → (c : DockerContainer) × IsFor deploy c
        × (((construct_container env intn deploy >>= create_container env intn) w).1.trace
            ≡ object_created c ∷ w.trace)
  unfolding construct_container
  create_one deploy w made h =
      let (c, built, e) = bind_ok _ _ w made h in
      let (suffix, drawn, e') = bind_ok _ _ w c built in
      (
        c,
        (suffix, sym (pure_ok _ _ c (ap (λ r. r.0) (sym e') ∙ built))),
        ap (λ r. r.1.trace) e
            ∙ trace-act _ _ _
            ∙ ap (λ l. object_created c ∷ l)
                (ap (λ r. r.1.trace) e'
                  ∙ ap (λ (x : World W). x.trace)
                      (pure_state (container_for env intn deploy suffix)
                        (random_string env intn 5 w).1)
                  ∙ (random_string-Still w.trace 5).at w refl),
      )

  scale_up-creates :
      (deploy : DockerDeployment) (n : ℕ) (w : World W)
      → (scale_up env intn deploy n w).0 ≡ ok tt
      → (cs : List DockerContainer) × (length cs ≡ n)
        × All (IsFor deploy) cs
        × ((scale_up env intn deploy n w).1.trace ≡ map object_created cs ++ w.trace)
  unfolding scale_up pure
  scale_up-creates deploy zero w h = ([], refl, tt, refl)
  scale_up-creates deploy (suc n) w h =
      let (made, first, e) = bind_ok _ _ w tt h in
      let (c, for_deploy, noted) = create_one deploy w made first in
      let one = (construct_container env intn deploy >>= create_container env intn) w in
      let (cs, many, all_for, rest) = scale_up-creates deploy n one.1 (ap (λ r. r.0) (sym e) ∙ h) in
      (
        cs ++ c ∷ [],
        omega (arith, many, length-append cs (c ∷ [])),
        All-append (IsFor deploy) cs (c ∷ []) all_for (for_deploy, tt),
        ap (λ r. r.1.trace) e
            ∙ rest
            ∙ ap (λ l. map object_created cs ++ l) noted
            ∙ map_onto object_created cs c w.trace,
      )

  -- The new containers and those that a pass deletes, for `r` replicas.
  abbrev pub Scaled : DockerDeployment → List DockerContainer → ℕ → World W → World W → Type 0
  Scaled deploy owned r w v =
      (r ≤ length owned → v.trace ≡ map object_deleted (drop r owned) ++ w.trace)
      × (length owned < r
          → (cs : List DockerContainer) × (length cs ≡ r - length owned)
            × All (IsFor deploy) cs
            × (v.trace ≡ map object_created cs ++ w.trace))

  up-Scaled :
      (deploy : DockerDeployment) (owned : List DockerContainer) (r : ℕ) (w : World W)
      → length owned ≤ r
      → (scale_up env intn deploy (r - length owned) w).0 ≡ ok tt
      → Scaled deploy owned r w (scale_up env intn deploy (r - length owned) w).1
  up-Scaled deploy owned r w enough h =
      let (cs, many, all_for, made) = scale_up-creates deploy (r - length owned) w h in
      (
        λ full.
            let whole : length owned ≡ r = omega arith in
            let none_made = length-zero cs (omega arith) in
            made
            ∙ ap (λ l. map object_created l ++ w.trace) none_made
            ∙ ap (λ l. map object_deleted l ++ w.trace)
                (sym (drop-length owned) ∙ ap (λ k. drop k owned) whole),
        λ _. (cs, many, all_for, made),
      )

  down-Scaled :
      (deploy : DockerDeployment) (owned : List DockerContainer) (r : ℕ) (w : World W)
      → r < length owned
      → (scale_down env intn owned 0 (length owned - r) w).0 ≡ ok tt
      → Scaled deploy owned r w (scale_down env intn owned 0 (length owned - r) w).1
  down-Scaled deploy owned r w more h = (
    λ _.
        scale_down-deletes w.trace owned 0 (length owned - r) w (omega arith)
          (ap (λ l. map object_deleted l ++ w.trace) (sym (drop-length owned))
            ∙ ap (λ k. map object_deleted (drop k owned) ++ w.trace) (omega arith))
          h
        ∙ ap (λ k. map object_deleted (drop k owned) ++ w.trace) (omega arith),
    λ less. absurd (omega arith),
  )

  -- The loops for a difference that is exact.
  by-Scaled :
      (deploy : DockerDeployment) (owned : List DockerContainer) (r : ℕ) (w : World W)
      → length owned < 2147483648
      → (scale_by env intn deploy owned (sub_ℕ r (length owned)) w).0 ≡ ok tt
      → Scaled deploy owned r w (scale_by env intn deploy owned (sub_ℕ r (length owned)) w).1
  unfolding scale_by remove_newest
  by-Scaled deploy owned r w few = elim (Bool-cases (leb (length owned) r)) [
    | inl enough ↦ rw enough (up-Scaled deploy owned r w (ground (arith, enough)))
    | inr more ↦
        let fewer : r < length owned = ground (arith, more) in
        let count : int32 (pos (suc (length owned - r - 1))) ≡ pos (length owned - r) =
          removed (suc (length owned - r - 1)) (omega arith) ∙ ap pos (omega (arith, fewer)) in
        rw (more, count) (down-Scaled deploy owned r w fewer)
  ]

  -- A pass without an error over the owned containers, in their order of age, for `r` replicas: if
  -- there are `r` or more, all from the one at `r` on are deleted, the last first, and none is created;
  -- if there are fewer, none is deleted, and as many as are missing are created from the template.
  pub scale-Scaled :
      (deploy : DockerDeployment) (owned : List DockerContainer) (r : ℕ) (w : World W)
      → desired_replicas deploy ≡ pos r
      → r < 2147483648
      → length owned < 2147483648
      → (scale env intn deploy owned w).0 ≡ ok tt
      → Scaled deploy owned r w (scale env intn deploy owned w).1
  unfolding scale
  scale-Scaled deploy owned r w wanted small few =
      rw (wanted, difference r (length owned) small few) (by-Scaled deploy owned r w few)
