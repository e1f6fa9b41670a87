-- ===== src/Tunnel/Start.antt =====
-- `Start` of internal/tunnel/server.go: what it sets going. That a listener opens, and how the server of
-- the WebSockets ends, are parameters.
use k8s_docker_operator.Prelude.{
  ◌≡◌, refl, false, String, Option, some, none, str_eq, List, [], ◌∷◌, ◌++◌, if◌then◌else◌,
}
use k8s_docker_operator.Exec.{Result, ok, err}
use k8s_docker_operator.Tunnel.Targets.{Text, is_empty}
use k8s_docker_operator.Tunnel.Server.{Server}

-- The handlers of `http.HandleFunc`, by the path of a request; the other paths are not found.
pub data Endpoint : Type 0 where
  tunnel reload : Endpoint

unfoldable pub endpoint : String → Option Endpoint
endpoint path =
    if str_eq path "/ws" then some tunnel else if str_eq path "/reload" then some reload else none

pub data Task : Type 0 where
  accepts_tcp : Text → Task
  watches_file : Text → Task
  serves_websockets : Text → Task

module _ (listen serve : Text → Result (Unit {0})) where
  -- The error that `Start` returns, and what runs by then, the first of them first.
  unfoldable start_server : Server → Result (Unit {0}) × List Task
  start_server s = elim (listen s.listen_addr) [
    | err e ↦ (err e, [])
    | ok _ ↦ (
      serve s.ws_addr,
      accepts_tcp s.listen_addr
            ∷ (if is_empty s.targets_file then [] else watches_file s.targets_file ∷ [])
          ++ serves_websockets s.ws_addr ∷ [],
    )
  ]

  -- Where the listener opens, the connections of a server that has a file of targets are accepted, the file is
  -- watched, and the WebSockets are served.
  start_server-watches :
      (s : Server)
      → listen s.listen_addr ≡ ok tt
      → is_empty s.targets_file ≡ false
      → start_server s ≡ (
        serve s.ws_addr,
        accepts_tcp s.listen_addr ∷ watches_file s.targets_file ∷ serves_websockets s.ws_addr ∷ [],
      )
  unfolding start_server
  start_server-watches s opens named = rw (start_server, opens) (rw named refl)
