-- ===== src/Tunnel/Server.antt =====
-- internal/tunnel/server.go. The receiver is a record; a handler that locks `mu` is one step on it. What
-- the network and the clock answer is an argument.
use k8s_docker_operator.Prelude.{
  ℕ, ◌+◌, ◌%◌, ◌^◌, Bool, false, not, ◌&&◌, List, [], ◌∷◌, ◌++◌, Option, none, some, length,
  get_elem?, ◌==◌, if◌then◌else◌,
}
use k8s_docker_operator.Prelude.Int.{ℤ, pos, ltb_ℤ}
use k8s_docker_operator.Prelude.Text.{trim_space}
use k8s_docker_operator.Exec.{given}
use k8s_docker_operator.Outside.Time.{sub_time}
use k8s_docker_operator.Tunnel.Targets.{Text, is_empty, text_eq, parse_targets, targets_equal}

-- A yamux session is known by its identity. `last_push_time` is `none` for the zero time.
pub record Server : Type 0 where
  pub listen_addr : Text
  pub ws_addr : Text
  pub auth_token : Text
  pub sessions : List ℕ
  pub targets : List Text
  pub push_targets : List Text
  pub targets_file : Text
  pub last_push_time : Option ℤ
  pub rr_index : ℕ  -- uint64

unfoldable pub new_server : Text → Text → Text → List Text → Server
new_server listen_addr ws_addr auth_token targets = record {
  listen_addr = listen_addr;
  ws_addr = ws_addr;
  auth_token = auth_token;
  sessions = [];
  targets = targets;
  push_targets = [];
  targets_file = [];
  last_push_time = none;
  rr_index = 0;
}

unfoldable pub set_targets_file : Text → Server → Server
set_targets_file path s = record s { targets_file = path }

-- How the choice of a target and a session ends.
pub data Route : Type 0 where
  no_client no_targets : Route
  selected : Text → ℕ → Route

abbrev pub pick : Option Text → Option ℕ → Route
pick (some target) (some session) = selected target session
pick _ _ = no_targets

-- The part of `handleTCP` under the lock.
unfoldable pub route : Server → Route × Server
route s =
    let target = get_elem? s.targets (s.rr_index % length s.targets) in
    let session = get_elem? s.sessions (s.rr_index % length s.sessions) in
    if length s.sessions == 0
    then (no_client, s)
    else if length s.targets == 0
    then (no_targets, s)
    else (pick target session, record s { rr_index = (s.rr_index + 1) % 2 ^ 64 })

-- How `handleTCP` ends; `piped` has the bytes sent on the stream before the copying starts.
pub data TcpEnd : Type 0 where
  dropped : Route → TcpEnd
  open_failed : TcpEnd
  header_failed : TcpEnd
  piped : ℕ → List ℕ → TcpEnd

abbrev pub newline : ℕ
newline = b'\n'

abbrev pub serve : Bool → Bool → Route → TcpEnd
serve opens writes (selected target session) =
    if opens
    then if writes then piped session (target ++ newline ∷ []) else header_failed
    else open_failed
serve opens writes r = dropped r

-- `opens` and `writes`: whether `sess.Open` and the write of the header succeed.
unfoldable pub handle_tcp : Bool → Bool → Server → TcpEnd × Server
handle_tcp opens writes s = let (r, s') = route s in (serve opens writes r, s')

-- A request for `/ws`: the query parameter `token` and the header `X-Tunnel-Token`.
pub record WsRequest : Type 0 where
  pub query_token : Text
  pub header_token : Text

pub data WsReply : Type 0 where
  forbidden upgrade_failed session_failed registered : WsReply

-- `handleWS` up to the registration of the session.
unfoldable pub handle_ws : WsRequest → Bool → Option ℕ → Server → WsReply × Server
handle_ws request upgrades session s =
    if not (is_empty s.auth_token) && not (text_eq request.query_token s.auth_token)
    then (forbidden, s)
    else if not upgrades
    then (upgrade_failed, s)
    else given session (λ id. (registered, record s { sessions = s.sessions ++ id ∷ [] }))
        (session_failed, s)

unfoldable pub remove_first : ℕ → List ℕ → List ℕ
remove_first id [] = []
remove_first id (x ∷ xs) = if x == id then xs else x ∷ remove_first id xs

-- The deferred clean-up of `handleWS`.
unfoldable pub disconnect : ℕ → Server → Server
disconnect id s = record s { sessions = remove_first id s.sessions }

-- 2 * time.Minute
abbrev pub push_window : ℤ
push_window = pos 120000000000

-- Whether a push at the time noted is still recent at `now`.
unfoldable pub recent_push : ℤ → Server → Bool
recent_push now s = given s.last_push_time (λ t. ltb_ℤ (sub_time now t) push_window) false

-- `strings.TrimSpace(string(data))`, split and cleaned unless it is empty.
unfoldable pub file_targets : Text → List Text
file_targets content =
    if is_empty (trim_space content) then [] else parse_targets (trim_space content)

-- `loadTargetsFromFile`; `file` is `none` where the file cannot be read.
unfoldable pub load_targets_from_file : ℤ → Option Text → Server → Server
load_targets_from_file now none s = s
load_targets_from_file now (some content) s =
    let new_targets = file_targets content in
    if recent_push now s && not (targets_equal new_targets s.push_targets)
    then s
    else if targets_equal new_targets s.targets
    then s
    else record s { targets = new_targets }

-- `handleReload`: the status of the answer, and the server after it.
unfoldable pub handle_reload : Bool → Text → ℤ → Option Text → Server → ℕ × Server
handle_reload is_post targets now file s =
    let new_targets = parse_targets targets in
    let pushed = record s {
      targets = new_targets;
      push_targets = new_targets;
      last_push_time = some now;
    } in
    if not is_post
    then (405, s)
    else if is_empty targets
    then (200, load_targets_from_file now file s)
    else (200, pushed)
