-- ===== src/DeploymentController/Overrun.antt =====
-- A negative number of replicas, which neither the API type nor its schema excludes.
use k8s_docker_operator.Prelude.{
  ℕ, zero, suc, ◌+◌, ◌≤◌, ◌<◌, ◌≡◌, ◌≢◌, refl, sym, ap, ◌∙◌, List, length, ltb, le→ltb, ltb→lt,
  Bool-cases, inl, inr, arith,
}
use k8s_docker_operator.Prelude.Int.{pos, negsuc, ◌-ℤ◌, int32}
use k8s_docker_operator.Exec.{Exec, ok, err, plain, raise, given}
use k8s_docker_operator.Exec.Inversion.{bind_ok}
use k8s_docker_operator.Api.Container.{DockerContainer}
use k8s_docker_operator.Api.Deployment.{DockerDeployment}
use k8s_docker_operator.Outside.Calls.{Env, World}
use k8s_docker_operator.DeploymentController.Scaling.{
  desired_replicas, victim, delete_container, scale_down, remove_newest, scale_by, scale,
}

module _ {W F : Type 0} (env : Env W F) (intn : ℕ → W → ℕ × W) where
  abbrev delete_at : List DockerContainer → ℕ → Exec (World W) (Unit {0})
  delete_at owned i =
      given (victim owned i) (delete_container env intn) (raise (plain "index out of range"))

  delete_at-outside :
      (owned : List DockerContainer) (i : ℕ) (w : World W)
      → length owned ≤ i
      → (delete_at owned i w).0 ≡ err (plain "index out of range")
  unfolding given victim raise
  delete_at-outside owned i w h = rw (le→ltb i (length owned) h) refl

  scale_down-overrun :
      (owned : List DockerContainer) (i n : ℕ) (w : World W)
      → i ≤ length owned
      → length owned < i + n
      → (scale_down env intn owned i n w).0 ≢ ok tt
  unfolding scale_down
  scale_down-overrun owned i zero w inside over h = absurd (omega arith)
  scale_down-overrun owned i (suc n) w inside over h =
      let (u, got, e) = bind_ok (delete_at owned i) _ w tt h in
      elim (Bool-cases (ltb i (length owned))) [
        | inl below ↦
            let lower = ltb→lt _ _ below in
            scale_down-overrun owned (suc i) n (delete_at owned i w).1 (omega (arith, lower))
              (omega arith) (ap (λ r. r.0) (sym e) ∙ h)
        | inr out ↦
            let failed = delete_at-outside owned i w (ground (arith, out)) in
            absurd (ground (arith, failed, got))
      ]

  overrun :
      (owned : List DockerContainer) (k : ℕ)
      → length owned + k < 2147483647
      → int32 (negsuc k -ℤ int32 (pos (length owned))) ≡ negsuc (length owned + k)
  unfolding int32 ◌-ℤ◌
  overrun owned k small = ground arith

  removed : (n : ℕ) → n < 2147483647 → int32 (pos (suc n)) ≡ pos (suc n)
  unfolding int32
  removed n few = ground arith

  -- For a negative number of replicas no pass ends without an error (the index leaves the slice, or a
  -- deletion fails), however many containers there are, while the difference fits in 32 bits.
  pub scale-negative :
      (deploy : DockerDeployment) (owned : List DockerContainer) (k : ℕ) (w : World W)
      → desired_replicas deploy ≡ negsuc k
      → length owned + k < 2147483647
      → (scale env intn deploy owned w).0 ≢ ok tt
  unfolding scale scale_by remove_newest
  scale-negative deploy owned k w wanted small =
      rw (wanted, overrun owned k small, removed (length owned + k) small)
        (scale_down-overrun owned 0 (suc (length owned + k)) w (omega arith) (omega arith))
