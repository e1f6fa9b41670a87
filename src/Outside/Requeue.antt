-- ===== src/Outside/Requeue.antt =====
-- What a reconciliation asks of the work queue.
use k8s_docker_operator.Prelude.{Option, none, some}
use k8s_docker_operator.Prelude.Int.{ℤ}

-- ctrl.Result: the delay after which the object is looked at again, `none` for no delay asked.
pub record Outcome : Type 0 where
  pub requeue_after : Option ℤ

abbrev pub done : Outcome
done = record { requeue_after = none }

abbrev pub again : ℤ → Outcome
again delay = record { requeue_after = some delay }
