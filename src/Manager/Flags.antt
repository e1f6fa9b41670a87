-- ===== src/Manager/Flags.antt =====
-- The flags of the command `tunnel` in cmd/manager/main.go, read as the package `flag` of the standard
-- library reads flags that take a text. `none` is the end of the program on an error.
use k8s_docker_operator.Prelude.{◌||◌, Option, none, some, List, [], ◌∷◌, ◌==◌, if◌then◌else◌}
use k8s_docker_operator.Prelude.Text.{codes}
use k8s_docker_operator.Exec.{given}
use k8s_docker_operator.Tunnel.Targets.{Text, is_empty, text_eq}

pub record TunnelFlags : Type 0 where
  pub mode : Text
  pub listen_addr : Text
  pub ws_addr : Text
  pub auth_token : Text
  pub targets : Text
  pub targets_file : Text
  pub server_url : Text
  pub gateway_addr : Text

abbrev pub default_flags : TunnelFlags
default_flags = record {
  mode = codes "server";
  listen_addr = codes ":8080";
  ws_addr = codes ":8081";
  auth_token = [];
  targets = [];
  targets_file = [];
  server_url = codes "ws://localhost:8081/ws";
  gateway_addr = codes ":8080";
}

-- The value of a flag by its name, a later one in place of an earlier; `none` for an unknown flag.
unfoldable pub set_flag : Text → Text → TunnelFlags → Option TunnelFlags
set_flag name value f =
    if text_eq name (codes "mode")
    then some (record f { mode = value })
    else if text_eq name (codes "listen-addr")
    then some (record f { listen_addr = value })
    else if text_eq name (codes "ws-addr")
    then some (record f { ws_addr = value })
    else if text_eq name (codes "auth-token")
    then some (record f { auth_token = value })
    else if text_eq name (codes "targets")
    then some (record f { targets = value })
    else if text_eq name (codes "targets-file")
    then some (record f { targets_file = value })
    else if text_eq name (codes "server-url")
    then some (record f { server_url = value })
    else if text_eq name (codes "gateway-addr")
    then some (record f { gateway_addr = value })
    else none

-- An argument: the end of the flags, one that is malformed, or a name with the value behind `=`.
pub data FlagArg : Type 0 where
  ends malformed : FlagArg
  flag : Text → Option Text → FlagArg

unfoldable pub cut_value : Text → Text × Option Text
cut_value [] = ([], none)
cut_value (c ∷ s) =
    let (name, value) = cut_value s in if c == b'=' then ([], some s) else (c ∷ name, value)

abbrev pub named : Text → FlagArg
named [] = malformed
named (c ∷ s) =
    let (name, value) = cut_value (c ∷ s) in
    if c == b'-' || c == b'=' then malformed else flag name value

-- What stands behind the first dash.
abbrev pub dashed : Text → FlagArg
dashed [] = ends
dashed (c ∷ s) = if c == b'-' then if is_empty s then ends else named s else named (c ∷ s)

unfoldable pub read_arg : Text → FlagArg
read_arg [] = ends
read_arg (c ∷ s) = if c == b'-' then dashed s else ends

-- The last argument.
abbrev pub last_flag : FlagArg → TunnelFlags → Option TunnelFlags
last_flag ends f = some f
last_flag malformed f = none
last_flag (flag name none) f = none
last_flag (flag name (some value)) f = set_flag name value f

-- An argument before `next`: what goes on behind `next`, and what goes on with it.
abbrev pub next_flag :
    FlagArg
    → TunnelFlags
    → Text
    → (TunnelFlags → Option TunnelFlags)
    → (TunnelFlags → Option TunnelFlags)
    → Option TunnelFlags
next_flag ends f next behind with_it = some f
next_flag malformed f next behind with_it = none
next_flag (flag name none) f next behind with_it = given (set_flag name next f) behind none
next_flag (flag name (some value)) f next behind with_it =
    given (set_flag name value f) with_it none

unfoldable pub parse_flags : TunnelFlags → List Text → Option TunnelFlags
parse_flags f [] = some f
parse_flags f (arg ∷ []) = last_flag (read_arg arg) f
parse_flags f (arg ∷ next ∷ args) =
    next_flag (read_arg arg) f next (λ f'. parse_flags f' args) (λ f'. parse_flags f' (next ∷ args))
