-- ===== src/Manager/Args.antt =====
-- The arguments that the service controller gives to the two ends of a tunnel, read by the command.
use k8s_docker_operator.Prelude.{◌≡◌, refl, ◌∙◌, String, none, some, List, [], ◌∷◌, map}
use k8s_docker_operator.Prelude.Text.{◌<>◌, codes, codes-append, show_ℤ}
use k8s_docker_operator.Exec.{given}
use k8s_docker_operator.Api.Container.{ServicePort}
use k8s_docker_operator.Api.Service.{DockerService}
use k8s_docker_operator.Outside.Calls.{Env, Cluster}
use k8s_docker_operator.Tunnel.Targets.{Text, text_eq}
use k8s_docker_operator.Tunnel.Server.{Server, new_server, set_targets_file}
use k8s_docker_operator.Tunnel.Client.{new_client}
use k8s_docker_operator.ServiceController.Server.{listen_arg, server_args}
use k8s_docker_operator.ServiceController.Client.{client_args}
use k8s_docker_operator.ContainerController.Former.{former_args}
use k8s_docker_operator.Manager.Flags.{
  TunnelFlags, default_flags, set_flag, flag, cut_value, read_arg, parse_flags,
}
use k8s_docker_operator.Manager.Run.{failed, serves, connects, server_of, run_mode, run_tunnel}

parse_flags-nil : (f : TunnelFlags) → parse_flags f [] ≡ some f
unfolding parse_flags
parse_flags-nil f = refl

parse_flags-cons :
    (f f' : TunnelFlags) (arg name value : Text) (args : List Text)
    → read_arg arg ≡ flag name (some value)
    → set_flag name value f ≡ some f'
    → parse_flags f (arg ∷ args) ≡ parse_flags f' args
unfolding parse_flags given
parse_flags-cons f f' arg name value [] read set = rw (read, set) refl
parse_flags-cons f f' arg name value (next ∷ args) read set = rw (read, set) refl

read-auth :
    (token : String)
    → read_arg (codes ("-auth-token=" <> token)) ≡ flag (codes "auth-token") (some (codes token))
unfolding read_arg cut_value
read-auth token = rw codes-append refl

read-url :
    (url : String)
    → read_arg (codes ("-server-url=" <> url)) ≡ flag (codes "server-url") (some (codes url))
unfolding read_arg cut_value
read-url url = rw codes-append refl

read-listen :
    (p : ServicePort)
    → read_arg (codes (listen_arg p))
      ≡ flag (codes "listen-addr") (some (codes (":" <> show_ℤ p.port)))
unfolding read_arg cut_value
read-listen p = rw (codes-append, codes-append) refl

-- The address of the last port, if there is one.
abbrev pub last_listen : Text → List ServicePort → Text
last_listen addr [] = addr
last_listen addr (p ∷ ps) = last_listen (codes (":" <> show_ℤ p.port)) ps

parse-listens :
    (f : TunnelFlags) (ports : List ServicePort)
    → parse_flags f (map codes (map listen_arg ports))
      ≡ some (record f { listen_addr = last_listen f.listen_addr ports })
parse-listens f [] = unfold parse_flags in refl
parse-listens f (p ∷ ps) =
    parse_flags-cons f (record f { listen_addr = codes (":" <> show_ℤ p.port) }) _ _ _
      (map codes (map listen_arg ps)) (read-listen p) (unfold set_flag text_eq in refl)
    ∙ parse-listens (record f { listen_addr = codes (":" <> show_ℤ p.port) }) ps

-- The arguments behind the command's name.
abbrev pub behind : List String → List Text
behind [] = []
behind (arg ∷ args) = map codes args

server_flags : (ds : DockerService) (token : String) → TunnelFlags
server_flags ds token = record default_flags {
  auth_token = codes token;
  targets_file = codes "/etc/tunnel/targets";
  listen_addr = last_listen (codes ":8080") ds.spec.ports;
}

parse-server_args :
    (ds : DockerService) (token : String)
    → parse_flags default_flags (behind (server_args ds token)) ≡ some (server_flags ds token)
unfolding set_flag text_eq read_arg cut_value server_flags
parse-server_args ds token =
    parse_flags-cons default_flags default_flags (codes "-mode=server") (codes "mode") _ _ refl refl
    ∙ parse_flags-cons default_flags default_flags (codes "-ws-addr=:8081") (codes "ws-addr") _ _
        refl refl
    ∙ parse_flags-cons default_flags (record default_flags { auth_token = codes token }) _ _ _ _
        (read-auth token) refl
    ∙ parse_flags-cons (record default_flags { auth_token = codes token })
        (record default_flags {
          auth_token = codes token;
          targets_file = codes "/etc/tunnel/targets";
        })
        (codes "-targets-file=/etc/tunnel/targets") _ _ _ refl refl
    ∙ parse-listens
        (record default_flags {
          auth_token = codes token;
          targets_file = codes "/etc/tunnel/targets";
        })
        ds.spec.ports

-- The server that the arguments ask for.
abbrev pub served : DockerService → String → Server
served ds token =
    record (new_server (last_listen (codes ":8080") ds.spec.ports) (codes ":8081") (codes token)
      []) { targets_file = codes "/etc/tunnel/targets" }

-- The flags of a client with this address and this token.
abbrev client_flags : String → String → TunnelFlags
client_flags url token = record default_flags {
  mode = codes "client";
  server_url = codes url;
  auth_token = codes token;
}

parse-former_args :
    (url address : String) → parse_flags default_flags (behind (former_args url address)) ≡ none
unfolding parse_flags set_flag text_eq read_arg cut_value given
parse-former_args url address = refl

module _ {W F : Type 0} (env : Env W F) (cluster : Cluster W) where
  parse-client_args :
      (url token : String)
      → parse_flags default_flags (behind (client_args env cluster url token))
        ≡ some (client_flags url token)
  unfolding set_flag text_eq read_arg cut_value
  parse-client_args url token =
      parse_flags-cons default_flags (record default_flags { mode = codes "client" })
        (codes "-mode=client") (codes "mode") _ _ refl refl
      ∙ parse_flags-cons (record default_flags { mode = codes "client" })
          (record default_flags { mode = codes "client"; server_url = codes url }) _ _ _ _
          (read-url url) refl
      ∙ parse_flags-cons (record default_flags { mode = codes "client"; server_url = codes url })
          (client_flags url token) _ _ _ [] (read-auth token) refl
      ∙ parse_flags-nil (client_flags url token)

  -- The command, run with the arguments that the controller gives to the server's deployment and to the
  -- client's container, is a server with the token and the targets file, and a client with the address
  -- and the same token. Of the service's ports the server listens at the last only. The arguments of the
  -- former client end the command in an error.
  pub run_tunnel-args :
      (ds : DockerService) (token url address : String)
      → (run_tunnel (behind (server_args ds token)) ≡ serves (served ds token))
        × (run_tunnel (behind (client_args env cluster url token))
            ≡ connects (new_client (codes url) (codes token)))
        × (run_tunnel (behind (former_args url address)) ≡ failed)
  unfolding run_tunnel run_mode server_of set_targets_file text_eq given server_flags
  run_tunnel-args ds token url address = (
    rw (parse-server_args ds token) refl,
    rw (parse-client_args url token) refl,
    rw (parse-former_args url address) refl,
  )
