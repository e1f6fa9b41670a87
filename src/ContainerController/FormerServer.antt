-- ===== src/ContainerController/FormerServer.antt =====
-- The former tunnel of internal/controller/dockercontainer/reconciler.go: the server in the
-- cluster. No code calls these functions.
use k8s_docker_operator.Prelude.{ℕ, suc, String, List, [], ◌∷◌, str_eq, if◌then◌else◌}
use k8s_docker_operator.Prelude.Int.{pos}
use k8s_docker_operator.Prelude.Text.{◌<>◌, show_ℕ}
use k8s_docker_operator.Exec.{wrap, Exec, pure, raise, lift, handle, ◌>>=◌, ◌>>◌}
use k8s_docker_operator.Api.Meta.{Meta}
use k8s_docker_operator.Api.Container.{DockerContainer, ServicePort}
use k8s_docker_operator.Api.Cluster.{CorePort, FormerContainer, FormerDeployment, FormerService}
use k8s_docker_operator.Outside.Calls.{
  Env, World, Cluster, Former, ask, act, former_deployment_created, former_deployment_updated,
  former_service_created,
}
use k8s_docker_operator.ServiceController.Auth.{bare_meta}
use k8s_docker_operator.ContainerController.Former.{
  former_key, former_image, no_services, ensure_auth,
}

abbrev pub former_name : DockerContainer → String
former_name cr = "tunnel-" <> cr.meta.name

abbrev pub former_container : String → String → FormerContainer
former_container image token = record {
  name = "tunnel";
  image = image;
  command =
      "/manager" ∷ "tunnel" ∷ "-mode" ∷ "server" ∷ "-listen-addr" ∷ ":8080" ∷ "-ws-addr" ∷ ":8081"
      ∷ "-auth-token" ∷ token ∷ [];
  ports = pos 8080 ∷ pos 8081 ∷ [];
}

unfoldable pub former_ports : ℕ → List ServicePort → List CorePort
former_ports i [] = []
former_ports i (sp ∷ sps) =
    let name = if str_eq sp.name "" then "traffic-" <> show_ℕ i else sp.name in
    record { name = name; port = sp.port; target_port = pos 8080 } ∷ former_ports (suc i) sps

module _ {W F : Type 0} (env : Env W F) (cluster : Cluster W) (former : Former W) where
  abbrev pub former_deployment : DockerContainer → Meta → String → FormerDeployment
  former_deployment cr meta token = record {
    meta = meta;
    app = former_name cr;
    replicas = pos 1;
    containers = former_container (former_image cluster.operator_image) token ∷ [];
  }

  unfoldable pub ensure_deployment :
      DockerContainer → FormerDeployment → Exec (World W) FormerDeployment
  ensure_deployment cr wanted =
      let refill = λ (found : FormerDeployment).
        let updated = record found { containers = wanted.containers } in
        act (former_deployment_updated updated) (former.deployments.update updated) in
      handle (ask (former.deployments.get (former_key cr (former_name cr)))) refill (λ e.
        if e.not_found
        then act (former_deployment_created wanted) (former.deployments.create wanted)
        else raise e)

  abbrev pub former_service : DockerContainer → Meta → FormerService
  former_service cr meta = record {
    meta = meta;
    app = former_name cr;
    ports =
        record { name = "ws"; port = pos 8081; target_port = pos 8081 }
        ∷ former_ports 0 cr.spec.services;
  }

  abbrev pub former_server_url : FormerService → String
  former_server_url found =
      "ws://" <> found.meta.name <> "." <> found.meta.namespace <> ".svc:8081/ws"

  -- A service that was only now created gives no address yet.
  unfoldable pub ensure_service : DockerContainer → FormerService → Exec (World W) String
  ensure_service cr wanted =
      let create = act (former_service_created wanted) (former.services.create wanted) >> pure "" in
      handle (ask (former.services.get (former_key cr (former_name cr))))
        (λ found. pure (former_server_url found)) (λ e. if e.not_found then create else raise e)

  unfoldable pub make_former_server : DockerContainer → Exec (World W) String
  make_former_server cr = do
    token ←
        handle (ensure_auth env cluster cr) pure
          (λ e. raise (wrap "failed to ensure tunnel auth: " e))
    let bare = bare_meta (former_key cr (former_name cr))
    meta ← lift (env.libs.set_controller cr.meta bare)
    ensure_deployment cr (former_deployment cr meta token)
    owned ← lift (env.libs.set_controller cr.meta bare)
    ensure_service cr (former_service cr owned)

  unfoldable pub reconcile_former_server : DockerContainer → Exec (World W) String
  reconcile_former_server cr =
      if no_services cr.spec.services then pure "" else make_former_server cr
