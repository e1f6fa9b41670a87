-- ===== src/ServiceController/Targets.antt =====
-- The addresses that the tunnel server of a DockerService balances over, and the push of them to its
-- pods (internal/controller/dockerservice/reconciler.go).
use k8s_docker_operator.Prelude.{String, List, [], ◌∷◌, ◌||◌, not, str_eq, if◌then◌else◌}
use k8s_docker_operator.Prelude.Text.{◌<>◌, show_ℤ}
use k8s_docker_operator.Exec.{Result, ok, err, plain, Exec, pure, attempt, handle, ◌>>◌}
use k8s_docker_operator.Api.Container.{DockerContainer, ServicePort}
use k8s_docker_operator.Api.Cluster.{Pod}
use k8s_docker_operator.Outside.Calls.{World, Cluster, ask, act, reload_pushed}

-- `dockerService.Spec.Ports[0]`
abbrev pub first_port : List ServicePort → Result ServicePort
first_port [] = err (plain "index out of range")
first_port (p ∷ ps) = ok p

unfoldable pub map_result : {A B : Type 0} → (A → B) → Result A → Result B
map_result f (ok a) = ok (f a)
map_result f (err e) = err e

unfoldable pub then_result : {A B : Type 0} → Result A → (A → Result B) → Result B
then_result (ok a) f = f a
then_result (err e) f = err e

abbrev pub address : DockerContainer → ServicePort → String
address tc p = tc.status.ipv4 <> ":" <> show_ℤ p.target_port

-- The loop over the containers, after the addresses found already. A panic is an error here.
unfoldable pub target_addresses : List ServicePort → List DockerContainer → Result (List String)
target_addresses ports [] = ok []
target_addresses ports (tc ∷ tcs) =
    let rest = target_addresses ports tcs in
    let more = then_result (first_port ports) (λ p. map_result (λ l. address tc p ∷ l) rest) in
    if str_eq tc.status.ipv4 "" then rest else more

-- strings.Join(xs, ",")
unfoldable pub join_comma : List String → String
join_comma [] = ""
join_comma (x ∷ []) = x
join_comma (x ∷ y ∷ ys) = x <> "," <> join_comma (y ∷ ys)

module _ {W : Type 0} (cluster : Cluster W) where
  -- One round of the loop over the pods. The push is a goroutine whose error is logged; it stands where
  -- it is begun.
  unfoldable pub reload_pod : String → Pod → Exec (World W) (Unit {0})
  reload_pod targets pod =
      if not (str_eq pod.phase "Running") || str_eq pod.pod_ip ""
      then pure tt
      else attempt (act (reload_pushed pod.pod_ip targets) (cluster.push_reload pod.pod_ip targets))

  unfoldable pub reload_pods : String → List Pod → Exec (World W) (Unit {0})
  reload_pods targets [] = pure tt
  reload_pods targets (pod ∷ pods) = reload_pod targets pod >> reload_pods targets pods

  unfoldable pub trigger_tunnel_reload : String → String → String → Exec (World W) (Unit {0})
  trigger_tunnel_reload namespace app targets =
      handle (ask (cluster.pods namespace app)) (reload_pods targets) (λ e. pure tt)
