-- ===== src/Outside/Trace.antt =====
-- Actions all of whose noted calls satisfy a predicate.
use k8s_docker_operator.Prelude.{◌≡◌, refl, ◌∷◌, List, All, String}
use k8s_docker_operator.Exec.{Result}
use k8s_docker_operator.Exec.Keeps.{Keeps, keeps_rules}
use k8s_docker_operator.Outside.Calls.{
  Env, World, Effect, CachedClient, ask, act, cache_load, cache_store, cache_delete,
}
use k8s_docker_operator.Outside.Time.{clock}

abbrev pub Traced : {W : Type 0} → (Effect → Type 0) → World W → Type 0
Traced Q w = All Q w.trace

module _ {W A : Type 0} where
  pub trace-act :
      (e : Effect) (f : W → Result A × W) (w : World W) → (act e f w).1.trace ≡ e ∷ w.trace
  unfolding act
  trace-act e f w = refl

module _ {W A : Type 0} (Q : Effect → Type 0) where
  pub Traced-ask : (f : W → Result A × W) → Keeps (Traced Q) (ask f)
  unfolding ask
  Traced-ask f = record { at = λ w h. h }

  pub Traced-act : (e : Effect) (f : W → Result A × W) → Q e → Keeps (Traced Q) (act e f)
  unfolding act
  Traced-act e f q = record { at = λ w h. (q, h) }

module _ {W F : Type 0} (Q : Effect → Type 0) where
  pub Traced-clock : (env : Env W F) → Keeps (Traced Q) (clock env)
  unfolding clock
  Traced-clock env = record { at = λ w h. h }

module _ {W : Type 0} (Q : Effect → Type 0) where
  pub Traced-cache_load : (key : String) → Keeps (Traced {W = W} Q) (cache_load key)
  unfolding cache_load
  Traced-cache_load key = record { at = λ w h. h }

  pub Traced-cache_store :
      (key : String) (entry : CachedClient) → Keeps (Traced {W = W} Q) (cache_store key entry)
  unfolding cache_store
  Traced-cache_store key entry = record { at = λ w h. h }

  pub Traced-cache_delete : (key : String) → Keeps (Traced {W = W} Q) (cache_delete key)
  unfolding cache_delete
  Traced-cache_delete key = record { at = λ w h. h }

pub ruleset traced_rules = (
  keeps_rules, Traced-ask, Traced-act, Traced-clock, Traced-cache_load, Traced-cache_store,
  Traced-cache_delete,
)

-- The calls of a world are those noted before, `t`.
abbrev pub Still : {W : Type 0} → List Effect → World W → Type 0
Still t w = w.trace ≡ t

module _ {W A : Type 0} (t : List Effect) where
  pub Still-ask : (f : W → Result A × W) → Keeps (Still t) (ask f)
  unfolding ask
  Still-ask f = record { at = λ w h. h }

pub ruleset still_rules = (keeps_rules, Still-ask)
