-- ===== src/ContainerController/Logs.antt =====
-- internal/controller/dockercontainer/logs.go. Standard output and errors are always asked for. The
-- stream of a container's logs is the pieces that reads return, and the error that ends it, if it is
-- not the end of the file.
use k8s_docker_operator.Prelude.{
  ℕ, String, Option, List, [], ◌∷◌, Bool, true, false, str_eq, if◌then◌else◌,
}
use k8s_docker_operator.Prelude.Text.{◌<>◌}
use k8s_docker_operator.Exec.{Error, Result, Exec, pure, raise, handle, given, ◌>>=◌}
use k8s_docker_operator.Outside.Docker.{Client}
use k8s_docker_operator.Outside.Calls.{Env, World, ask}
use k8s_docker_operator.JobController.Client.{local_client}
use k8s_docker_operator.Tunnel.Gateway.{get_value}

pub record LogsOptions : Type 0 where
  pub follow : Bool
  pub tail : String
  pub timestamps : Bool

pub record LogStream : Type 0 where
  pub pieces : List String
  pub failure : Option Error

-- The status of an answer, and what is written to it.
pub record Reply : Type 0 where
  pub status : ℕ
  pub body : List String

abbrev pub tail_or_default : String → String
tail_or_default tail = if str_eq tail "" then "100" else tail

abbrev pub shown_options : List (String × String) → LogsOptions
shown_options query = record {
  follow = str_eq (get_value "follow" query) "true";
  tail = tail_or_default (get_value "tail" query);
  timestamps = true;
}

abbrev pub whole_options : String → LogsOptions
whole_options tail = record { follow = false; tail = tail_or_default tail; timestamps = false }

-- http.Error
abbrev pub refusal : ℕ → String → Reply
refusal status message = record { status = status; body = message ∷ [] }

abbrev pub no_logs : String → Error → Reply
no_logs name e =
    if e.not_found
    then refusal 404 ("container '" <> name <> "' not found")
    else refusal 500 ("failed to get logs: " <> e.message)

abbrev pub join : List String → String
join [] = ""
join (s ∷ ss) = s <> join ss

module _ {W F : Type 0} (env : Env W F)
    (container_logs : Client → String → LogsOptions → W → Result LogStream × W) where
  -- The loop writes what the reads return, up to the first error.
  unfoldable pub stream_logs : String → LogsOptions → Client → Exec (World W) Reply
  stream_logs name options cli =
      handle (ask (container_logs cli name options))
        (λ stream. pure (record { status = 200; body = stream.pieces }))
        (λ e. pure (no_logs name e))

  unfoldable pub handle_logs : List (String × String) → Exec (World W) Reply
  handle_logs query =
      let name = get_value "name" query in
      let serve =
        handle (local_client env) (stream_logs name (shown_options query))
          (λ e. pure (refusal 500 ("failed to create docker client: " <> e.message))) in
      if str_eq name "" then pure (refusal 400 "missing 'name' query parameter") else serve

  unfoldable pub get_container_logs : String → String → Exec (World W) String
  get_container_logs name tail = do
    cli ← local_client env
    stream ← ask (container_logs cli name (whole_options tail))
    given stream.failure raise (pure (join stream.pieces))
