-- ===== src/Tests/Tunnel.antt =====
-- The tunnel on small servers.
use k8s_docker_operator.Prelude.{
  ℕ, ◌+◌, ◌<◌, ◌≤◌, ◌%◌, ◌≡◌, ◌≢◌, ◌↔◌, ◌⊎◌, refl, Bool, true, false, List, [], ◌∷◌, ◌++◌, Option,
  none, some, length, get_elem?, arith,
}
use k8s_docker_operator.Prelude.Int.{pos, ◌-ℤ◌}
use k8s_docker_operator.Prelude.Text.{codes, trim_space, split}
use k8s_docker_operator.Outside.Time.{sub_time}
use k8s_docker_operator.Tunnel.Targets.{Text, text_eq, is_empty, parse_targets, clean}
use k8s_docker_operator.Tunnel.Server.{
  Server, selected, route, handle_tcp, newline, WsRequest, forbidden, registered, handle_ws,
  disconnect, handle_reload,
}
use k8s_docker_operator.Tunnel.Client.{Client, connect_request, joined, long_header, handle_stream}
use k8s_docker_operator.Tunnel.RoundRobin.{routes, routes-each_target}
use k8s_docker_operator.Tunnel.Push.{reloads, push_lasts}
use k8s_docker_operator.Tunnel.Auth.{handle_ws-exact, header_token_ignored, member}
use k8s_docker_operator.Exec.{given}
use k8s_docker_operator.Tunnel.Conn.{WebSocketConn}
use k8s_docker_operator.Tunnel.Stream.{writes, drain, drain-writes}
use k8s_docker_operator.Tunnel.Server.{piped, remove_first}
use k8s_docker_operator.Manager.Flags.{TunnelFlags, default_flags}
use k8s_docker_operator.Manager.Run.{server_of}
use k8s_docker_operator.Tunnel.Registry.{
  Event, tunnel_asked, session_ended, visited, handle_event, handle_events, specified_all,
  handle_events-specified,
}
use k8s_docker_operator.Tunnel.Lifetime.{
  WellFormed, IsTarget, begun, goes_on, websocket, Life-handle_tcp,
}
use k8s_docker_operator.Tunnel.Header.{handle_stream-handle_tcp}

abbrev pub two_targets : List Text
two_targets = codes "a:1" ∷ codes "b:2" ∷ []

abbrev pub busy : Server
busy = record {
  listen_addr = codes ":8080";
  ws_addr = codes ":8081";
  auth_token = codes "s3";
  sessions = 7 ∷ 8 ∷ 9 ∷ [];
  targets = two_targets;
  push_targets = [];
  targets_file = [];
  last_push_time = none;
  rr_index = 5;
}

parse_targets_run : parse_targets (codes " a:1, ,b:2 ") ≡ two_targets
unfolding parse_targets clean trim_space split
parse_targets_run = refl

routes-each_target_example :
    (i : ℕ) × (t : Text) × (session : ℕ) × (i < length busy.targets)
    × (get_elem? (routes (length busy.targets) busy) i ≡ some (selected t session))
    × (get_elem? busy.targets 0 ≡ some t)
    × ((i' : ℕ)
        → i' < length busy.targets
        → (busy.rr_index + i') % length busy.targets ≡ 0
        → i' ≡ i)
routes-each_target_example = routes-each_target busy 0 (omega arith) (omega arith) (omega arith)

push_lasts_example :
    (reloads
      ((pos 60000000000, some (codes "old:9")) ∷ [])
      (handle_reload true (codes "c:3") (pos 0) none busy).1).targets
    ≡ parse_targets (codes "c:3")
unfolding sub_time ◌-ℤ◌
push_lasts_example =
    push_lasts (codes "c:3") (pos 0) none ((pos 60000000000, some (codes "old:9")) ∷ []) busy refl
      (refl, tt)

abbrev bad_request : WsRequest
bad_request = record { query_token = codes "no"; header_token = codes "s3" }

handle_ws-exact_example :
    ((handle_ws bad_request true (some 4) busy).0 ≡ registered
      ↔ ((is_empty busy.auth_token ≡ true) ⊎ (bad_request.query_token ≡ busy.auth_token))
        × (◌≡◌ {A = Bool} true true)
        × (◌≢◌ {A = Option ℕ} (some 4) none))
    × ((handle_ws bad_request true (some 4) busy).0 ≡ registered
        → (id : ℕ) × (◌≡◌ {A = Option ℕ} (some 4) (some id))
          × ((handle_ws bad_request true (some 4) busy).1
              ≡ record busy { sessions = busy.sessions ++ id ∷ [] }))
    × ((handle_ws bad_request true (some 4) busy).0 ≢ registered
        → (handle_ws bad_request true (some 4) busy).1 ≡ busy)
    × (is_empty busy.auth_token ≡ false
        → bad_request.query_token ≢ busy.auth_token
        → (handle_ws bad_request true (some 4) busy).0 ≡ forbidden)
handle_ws-exact_example = handle_ws-exact bad_request true (some 4) busy

abbrev good_client : Client
good_client = record { server_addr = codes "ws://t/ws"; token = codes "s3" }

header_token_ignored_example :
    handle_ws (connect_request (λ _. []) good_client) true (some 4) busy ≡ (forbidden, busy)
header_token_ignored_example =
    header_token_ignored (λ _. []) good_client true (some 4) busy refl refl

abbrev good_request : WsRequest
good_request = record { query_token = codes "s3"; header_token = [] }

abbrev events : List Event
events =
    tunnel_asked good_request true 4
    ∷ session_ended 7
    ∷ visited true true
    ∷ tunnel_asked bad_request true 5
    ∷ []

handle_events-specified_example :
    member 4 (handle_events events busy).sessions
    ≡ specified_all busy.auth_token events (λ j. member j busy.sessions) 4
unfolding handle_event handle_ws disconnect handle_tcp route remove_first text_eq given
handle_events-specified_example =
    handle_events-specified events busy (λ j. member j busy.sessions) (refl, (refl, (refl, tt)))
      (refl, (tt, (tt, (refl, tt)))) (λ j. refl) 4

handle_stream-handle_tcp_example :
    (length (codes "b:2") ≤ 256
      → handle_stream (λ t. true) ((codes "b:2" ++ newline ∷ []) ++ 1 ∷ [])
        ≡ joined (codes "b:2") (1 ∷ []))
    × (256 < length (codes "b:2")
        → handle_stream (λ t. true) ((codes "b:2" ++ newline ∷ []) ++ 1 ∷ []) ≡ long_header)
unfolding route handle_tcp
handle_stream-handle_tcp_example =
    handle_stream-handle_tcp (λ t. true) busy (record busy { rr_index = 6 }) 9 (codes "b:2")
      (codes "b:2" ++ newline ∷ []) (1 ∷ []) refl refl (omega arith) (omega arith)

abbrev idle : WebSocketConn
idle = record { messages = []; reader = none; written = [] }

abbrev sent : WebSocketConn
sent = writes ((1 ∷ 2 ∷ 3 ∷ []) ∷ [] ∷ (4 ∷ []) ∷ []) idle

drain-writes_example :
    drain (λ size left. size) 5 2 (record idle { messages = sent.written })
    ≡ some (1 ∷ 2 ∷ 3 ∷ 4 ∷ [])
drain-writes_example =
    drain-writes (λ size left. size) 2 5 ((1 ∷ 2 ∷ 3 ∷ []) ∷ [] ∷ (4 ∷ []) ∷ []) idle
      (record idle { messages = sent.written }) (λ b bs. omega arith) refl refl refl (omega arith)

abbrev flags : TunnelFlags
flags = record default_flags { targets = codes "a:1,,b:2" }

abbrev met : Server
met = (handle_ws bad_request true (some 4) (server_of flags)).1

Life-handle_tcp_example :
    WellFormed met
    × ((opens writes : Bool) (session : ℕ) (bytes : List ℕ)
        → (handle_tcp opens writes met).0 ≡ piped session bytes
        → (t : Text) × IsTarget t × (bytes ≡ t ++ newline ∷ []))
Life-handle_tcp_example =
    Life-handle_tcp (goes_on begun (websocket bad_request true (some 4) (server_of flags)))
