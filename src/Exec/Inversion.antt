-- ===== src/Exec/Inversion.antt =====
-- What is known of the parts of an action that returned.
use k8s_docker_operator.Prelude.{◌≡◌, refl, arith}
use k8s_docker_operator.Exec.{Result, ok, err, Exec, branch, pure, raise, ◌>>=◌}

module _ {S A B : Type 0} where
  branch_ok :
      (r : Result A) (rest : A → Exec S B) (s : S) (b : B)
      → (branch rest raise r s).0 ≡ ok b
      → (a : A) × (r ≡ ok a) × (branch rest raise r s ≡ rest a s)
  unfolding branch raise
  branch_ok (ok a) rest s b h = (a, refl, refl)
  branch_ok (err e) rest s b h = ground arith

  -- If `m >>= rest` returns, `m` returns some `a`, and the whole is `rest a` from where `m` ended.
  pub bind_ok :
      (m : Exec S A) (rest : A → Exec S B) (s : S) (b : B)
      → ((m >>= rest) s).0 ≡ ok b
      → (a : A) × ((m s).0 ≡ ok a) × ((m >>= rest) s ≡ rest a (m s).1)
  unfolding ◌>>=◌
  bind_ok m rest s b h = branch_ok (m s).0 rest (m s).1 b h

  -- To show `Q` of the end state of an action that returned: of its rest, from a state and a value
  -- that its first part gives.
  pub bind_ensures {ℓ} :
      (Q : S → Type ℓ) (m : Exec S A) (rest : A → Exec S B) (s : S) (b : B)
      → ((a : A) (t : S) → (m s).0 ≡ ok a → (m s).1 ≡ t → (rest a t).0 ≡ ok b → Q (rest a t).1)
      → ((m >>= rest) s).0 ≡ ok b
      → Q ((m >>= rest) s).1
  bind_ensures Q m rest s b k h =
      let (a, got, e) = bind_ok m rest s b h in rw e (k a (m s).1 got refl (rw (← e) h))

module _ {S A : Type 0} where
  pub pure_ok : (a : A) (s : S) (b : A) → (pure a s).0 ≡ ok b → a ≡ b
  unfolding pure
  pure_ok a s b h = cc

  pub pure_state : (a : A) (s : S) → (pure a s).1 ≡ s
  unfolding pure
  pure_state a s = refl
