-- ===== src/Exec/Keeps.antt =====
-- What an action leaves true of the state: a rule for each way in which actions are put together.
use k8s_docker_operator.Prelude.{
  ◌≡◌, refl, Bool, Bool-cases, inl, inr, true, false, Option, none, some, if◌then◌else◌,
}
use k8s_docker_operator.Exec.{
  Error, Result, ok, err, Exec, pure, raise, attempt, lift, branch, handle, given, ◌>>=◌,
}

-- `P` of the state before an action gives `P` of the state after it, be its end an error or not.
pub record Keeps {ℓ} {S A : Type 0} (P : S → Type ℓ) (action : Exec S A) : Type ℓ where
  pub at : (before : S) → P before → P (action before).1

module _ {S A : Type 0} {P : S → Type 0} where
  pub Keeps-if :
      (test : Bool) (passed missed : Exec S A)
      → (test ≡ true → Keeps P passed)
      → (test ≡ false → Keeps P missed)
      → Keeps P (if test then passed else missed)
  Keeps-if test passed missed on_yes on_no = elim (Bool-cases test) [
    | inl h ↦ rw h (on_yes h)
    | inr h ↦ rw h (on_no h)
  ]

  pub Keeps-attempt : (action : Exec S A) → Keeps P action → Keeps P (attempt action)
  unfolding attempt
  Keeps-attempt action kept = record { at = kept.at }

  -- An action that leaves the state alone.
  Keeps-same : (action : Exec S A) → ((before : S) → (action before).1 ≡ before) → Keeps P action
  Keeps-same action same = record { at = λ before h. rw (same before) h }

  pub Keeps-lift : (answer : Result A) → Keeps P (lift answer)
  unfolding lift
  Keeps-lift answer = Keeps-same (lift answer) (λ _. refl)

  pub Keeps-raise : (failure : Error) → Keeps P (raise {A = A} failure)
  unfolding raise
  Keeps-raise failure = Keeps-same (raise failure) (λ _. refl)

  pub Keeps-pure : (value : A) → Keeps P (pure value)
  unfolding pure
  Keeps-pure value = Keeps-same (pure value) (λ _. refl)

module _ {S A B : Type 0} {P : S → Type 0} where
  pub Keeps-given :
      (o : Option A) (present : A → Exec S B) (absent : Exec S B)
      → ((a : A) → Keeps P (present a))
      → Keeps P absent
      → Keeps P (given o present absent)
  unfolding given
  Keeps-given (some a) present absent kp ka = kp a
  Keeps-given none present absent kp ka = ka

  Keeps-branch :
      (r : Result A) (rest : A → Exec S B) (failed : Error → Exec S B)
      → ((a : A) → Keeps P (rest a))
      → ((e : Error) → Keeps P (failed e))
      → Keeps P (branch rest failed r)
  unfolding branch
  Keeps-branch (ok a) rest failed kr kf = record { at = λ s h. (kr a).at s h }
  Keeps-branch (err e) rest failed kr kf = record { at = λ s h. (kf e).at s h }

  pub Keeps-handle :
      (m : Exec S A) (rest : A → Exec S B) (failed : Error → Exec S B)
      → Keeps P m
      → ((a : A) → Keeps P (rest a))
      → ((e : Error) → Keeps P (failed e))
      → Keeps P (handle m rest failed)
  unfolding handle
  Keeps-handle m rest failed km kr kf = record {
    at = λ s h. (Keeps-branch (m s).0 rest failed kr kf).at (m s).1 (km.at s h);
  }

  pub Keeps-bind :
      (m : Exec S A) (rest : A → Exec S B)
      → Keeps P m
      → ((a : A) → Keeps P (rest a))
      → Keeps P (m >>= rest)
  unfolding ◌>>=◌
  Keeps-bind m rest km kr = Keeps-handle m rest raise km kr Keeps-raise

module _ {S A B : Type 0} {P : S → Type 0} where
  Keeps-branch_result :
      (r : Result A) (rest : A → Exec S B)
      → ((a : A) → r ≡ ok a → Keeps P (rest a))
      → Keeps P (branch rest raise r)
  unfolding branch raise
  Keeps-branch_result (ok a) rest kr = record { at = λ s h. (kr a refl).at s h }
  Keeps-branch_result (err e) rest kr = record { at = λ s h. h }

  -- The rest may use what `m` can return.
  pub Keeps-bind_result :
      (m : Exec S A) (rest : A → Exec S B)
      → Keeps P m
      → ((a : A) (s : S) → (m s).0 ≡ ok a → Keeps P (rest a))
      → Keeps P (m >>= rest)
  unfolding ◌>>=◌
  Keeps-bind_result m rest km kr = record {
    at = λ s h. (Keeps-branch_result (m s).0 rest (λ a e. kr a s e)).at (m s).1 (km.at s h);
  }

pub ruleset keeps_rules = (
  Keeps-pure, Keeps-raise, Keeps-lift, Keeps-attempt, Keeps-if, Keeps-given, Keeps-handle,
  Keeps-bind,
)
