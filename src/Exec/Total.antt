-- ===== src/Exec/Total.antt =====
-- Actions that never end with an error: a rule for each way in which actions are put together.
use k8s_docker_operator.Prelude.{◌≡◌, refl, Bool, true, false, Option, some, none, if◌then◌else◌}
use k8s_docker_operator.Exec.{
  Error, Result, ok, err, Exec, pure, attempt, branch, handle, given, ◌>>=◌,
}

-- The action returns a value, whatever the state before it.
pub record Total {S A : Type 0} (action : Exec S A) : Type 0 where
  pub at : (before : S) → (a : A) × ((action before).0 ≡ ok a)

module _ {S A : Type 0} where
  pub Total-pure : (value : A) → Total (pure {S = S} value)
  unfolding pure
  Total-pure value = record { at = λ s. (value, refl) }

  pub Total-attempt : (action : Exec S A) → Total (attempt action)
  unfolding attempt
  Total-attempt action = record { at = λ s. (tt, refl) }

  pub Total-if :
      (test : Bool) (passed missed : Exec S A)
      → Total passed
      → Total missed
      → Total (if test then passed else missed)
  Total-if true passed missed on_yes on_no = on_yes
  Total-if false passed missed on_yes on_no = on_no

module _ {S A B : Type 0} where
  pub Total-given :
      (o : Option A) (present : A → Exec S B) (absent : Exec S B)
      → ((a : A) → Total (present a))
      → Total absent
      → Total (given o present absent)
  unfolding given
  Total-given (some a) present absent on_some on_none = on_some a
  Total-given none present absent on_some on_none = on_none

  branch-Total :
      (r : Result A) (rest : A → Exec S B) (failed : Error → Exec S B)
      → ((a : A) → Total (rest a))
      → ((e : Error) → Total (failed e))
      → Total (branch rest failed r)
  unfolding branch
  branch-Total (ok a) rest failed on_ok on_err = record { at = λ s. (on_ok a).at s }
  branch-Total (err e) rest failed on_ok on_err = record { at = λ s. (on_err e).at s }

  pub Total-handle :
      (m : Exec S A) (rest : A → Exec S B) (failed : Error → Exec S B)
      → ((a : A) → Total (rest a))
      → ((e : Error) → Total (failed e))
      → Total (handle m rest failed)
  unfolding handle
  Total-handle m rest failed on_ok on_err = record {
    at = λ s. (branch-Total (m s).0 rest failed on_ok on_err).at (m s).1;
  }

  pub Total-bind :
      (m : Exec S A) (rest : A → Exec S B)
      → Total m
      → ((a : A) → Total (rest a))
      → Total (m >>= rest)
  unfolding ◌>>=◌
  Total-bind m rest first after = record {
    at = λ s. let (a, e) = first.at s in rw e ((after a).at (m s).1);
  }

pub ruleset total_rules =
    (Total-pure, Total-attempt, Total-if, Total-given, Total-handle, Total-bind)
