-- ===== src/Manager/Run.antt =====
-- What the command `tunnel` of cmd/manager/main.go runs.
use k8s_docker_operator.Prelude.{List, [], if◌then◌else◌}
use k8s_docker_operator.Prelude.Text.{codes}
use k8s_docker_operator.Exec.{given}
use k8s_docker_operator.Tunnel.Targets.{Text, is_empty, text_eq, parse_targets}
use k8s_docker_operator.Tunnel.Server.{Server, new_server, set_targets_file}
use k8s_docker_operator.Tunnel.Client.{Client, new_client}
use k8s_docker_operator.Manager.Flags.{TunnelFlags, default_flags, parse_flags}

pub data Run : Type 0 where
  failed nothing : Run
  serves : Server → Run
  connects : Client → Run
  forwards : Text → Run

unfoldable pub server_of : TunnelFlags → Server
server_of f =
    let target_list = if is_empty f.targets then [] else parse_targets f.targets in
    let server = new_server f.listen_addr f.ws_addr f.auth_token target_list in
    if is_empty f.targets_file then server else set_targets_file f.targets_file server

unfoldable pub run_mode : TunnelFlags → Run
run_mode f =
    if text_eq f.mode (codes "server")
    then serves (server_of f)
    else if text_eq f.mode (codes "client")
    then connects (new_client f.server_url f.auth_token)
    else if text_eq f.mode (codes "gateway")
    then forwards f.gateway_addr
    else nothing

-- The arguments behind `tunnel`.
unfoldable pub run_tunnel : List Text → Run
run_tunnel args = given (parse_flags default_flags args) run_mode failed
