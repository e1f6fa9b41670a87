-- ===== src/Exec.antt =====
-- Go functions that return `(T, error)` and act on a state: what was done before an error stays
-- done, so the state comes back beside the error too.
pub mod Keeps
pub mod Inversion
pub mod Total
use Prim.Native.String.{◌++◌ as ◌<>◌}
use k8s_docker_operator.Prelude.{String, Bool, false, Option, none, some}

-- An error as the program sees it: its text, and whether the not-found predicate of the API that
-- made it (`errors.IsNotFound`, `dockerclient.IsErrNotFound`) holds of it.
pub record Error : Type 0 where
  pub not_found : Bool
  pub message : String

-- `fmt.Errorf("<prefix>%w", err)`: the predicates look through the wrapping.
abbrev pub wrap : String → Error → Error
wrap prefix e = record e { message = ◌<>◌ prefix e.message }

abbrev pub plain : String → Error
plain text = record { not_found = false; message = text }

pub data Result (A : Type 0) : Type 0 where
  ok : A → Result A
  err : Error → Result A

abbrev pub Exec : Type 0 → Type 0 → Type 0
Exec S A = S → Result A × S

module _ {S A : Type 0} where
  unfoldable pub pure : A → Exec S A
  pure a s = (ok a, s)

  unfoldable pub raise : Error → Exec S A
  raise e s = (err e, s)

  -- A call whose error the caller logs or drops.
  unfoldable pub attempt : Exec S A → Exec S (Unit {0})
  attempt m s = (ok tt, (m s).1)

  unfoldable pub lift : Result A → Exec S A
  lift r s = (r, s)

module _ {S A B : Type 0} where
  -- The rest of a function, after a call that may have failed.
  unfoldable pub branch : (A → Exec S B) → (Error → Exec S B) → Result A → Exec S B
  branch rest failed (ok a) s = rest a s
  branch rest failed (err e) s = failed e s

  -- `v, err := m; if err != nil { failed }; rest`
  unfoldable pub handle : Exec S A → (A → Exec S B) → (Error → Exec S B) → Exec S B
  unfolding branch
  handle m rest failed s = branch rest failed (m s).0 (m s).1

  -- The same, where the error is returned. To unfold it is to unfold all of these.
  infixl 5 ◌>>=◌ ◌>>◌
  unfoldable pub ◌>>=◌ : Exec S A → (A → Exec S B) → Exec S B
  unfolding handle branch pure raise attempt lift
  ◌>>=◌ m rest = handle m rest raise

  abbrev pub ◌>>◌ : Exec S A → Exec S B → Exec S B
  m >> n = m >>= λ _. n

-- `if p != nil`
unfoldable pub given {ℓ κ} : {A : Type ℓ} {X : Type κ} → Option A → (A → X) → X → X
given (some a) present absent = present a
given none present absent = absent
