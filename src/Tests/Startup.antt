-- ===== src/Tests/Startup.antt =====
-- The start of the manager where the controller of services cannot be registered, and where all goes well.
use k8s_docker_operator.Prelude.{◌≡◌, refl, [], ◌∷◌}
use k8s_docker_operator.Exec.{Result, ok, err}
use k8s_docker_operator.Manager.Start.{
  default_manager_flags, manager_options, setup_container, setup_host, setup_service, setup_job,
  setup_deployment, Resource, docker_service, Call, new_manager, complete, add_healthz, add_readyz,
  serve_logs, start, run_manager,
}
use k8s_docker_operator.Manager.Startup.{startup, run_manager-starts, run_manager-stops}
use k8s_docker_operator.Tests.Fixtures.{missing}

abbrev registered : Resource → Result (Unit {0})
registered docker_service = err missing
registered _ = ok tt

abbrev answer : Call → Result (Unit {0})
answer (complete r) = registered r.reconciles
answer _ = ok tt

run_manager-stops_example : run_manager answer default_manager_flags [] ≡ (
  err missing,
  new_manager (manager_options default_manager_flags)
      ∷ complete setup_container
      ∷ complete setup_host
      ∷ complete setup_service
      ∷ [],
)
run_manager-stops_example =
    run_manager-stops answer default_manager_flags
      (new_manager (manager_options default_manager_flags)
        ∷ complete setup_container
        ∷ complete setup_host
        ∷ [])
      (complete setup_job
        ∷ complete setup_deployment
        ∷ add_healthz
        ∷ add_readyz
        ∷ serve_logs default_manager_flags.logs_addr
        ∷ start
        ∷ [])
      (complete setup_service) missing refl (refl, (refl, (refl, tt))) refl

all_started :
    run_manager (λ _. ok tt) default_manager_flags [] ≡ (ok tt, startup default_manager_flags)
all_started =
    run_manager-starts (λ _. ok tt) default_manager_flags
      (refl, (refl, (refl, (refl, (refl, (refl, (refl, (refl, (tt, (refl, tt))))))))))
