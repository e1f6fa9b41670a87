-- ===== src/Tunnel/Client.antt =====
-- internal/tunnel/client.go: the request that a client makes, the header that it reads from each stream,
-- and its rounds.
use k8s_docker_operator.Prelude.{
  ℕ, ◌+◌, ◌/◌, ◌%◌, List, [], ◌∷◌, ◌++◌, map, Bool, length, ltb, ◌==◌, if◌then◌else◌,
}
use k8s_docker_operator.Prelude.Int.{ℤ, pos}
use k8s_docker_operator.Tunnel.Targets.{Text}
use k8s_docker_operator.Tunnel.Server.{WsRequest, newline}

pub record Client : Type 0 where
  pub server_addr : Text
  pub token : Text

unfoldable pub new_client : Text → Text → Client
new_client server_addr token = record { server_addr = server_addr; token = token }

-- The request of `connectAndServe`: the token of the client goes into the header `X-Tunnel-Token`, and
-- `query_token` is what the server finds in the query of the address, which is sent as it is.
unfoldable pub connect_request : (Text → Text) → Client → WsRequest
connect_request query_token c = record {
  query_token = query_token c.server_addr;
  header_token = c.token;
}

-- `string(buf[0])`: the UTF-8 encoding of the code point that the byte is.
unfoldable pub encode_byte : ℕ → List ℕ
encode_byte b = if ltb b 128 then b ∷ [] else (192 + b / 64) ∷ (128 + b % 64) ∷ []

pub data HeaderEnd : Type 0 where
  read_failed too_long : HeaderEnd
  target : List ℕ → List ℕ → HeaderEnd

-- The loop of `handleStream`: the bytes of the stream one by one, the address read so far, and at the
-- end the address and the rest of the stream. The stream ends where a read fails.
unfoldable pub read_header : List ℕ → List ℕ → HeaderEnd
read_header addr [] = read_failed
read_header addr (b ∷ stream) =
    let addr' = addr ++ encode_byte b in
    let rest = read_header addr' stream in
    if b == newline then target addr stream else if ltb 256 (length addr') then too_long else rest

-- How `handleStream` ends; `joined` has the address dialed and the bytes of the stream that are copied to
-- it first.
pub data StreamEnd : Type 0 where
  no_header long_header : StreamEnd
  dial_failed : List ℕ → StreamEnd
  joined : List ℕ → List ℕ → StreamEnd

abbrev pub dial : (List ℕ → Bool) → HeaderEnd → StreamEnd
dial dials read_failed = no_header
dial dials too_long = long_header
dial dials (target addr rest) = if dials addr then joined addr rest else dial_failed addr

-- `handleStream`; `dials` says which addresses `net.Dial` reaches.
unfoldable pub handle_stream : (List ℕ → Bool) → List ℕ → StreamEnd
handle_stream dials stream = dial dials (read_header [] stream)

-- How the dialing of the server goes, with the streams that are accepted before `Accept` fails.
pub data Dialed : Type 0 where
  refused no_session : Dialed
  accepted : List (List ℕ) → Dialed

pub data Deed : Type 0 where
  dialed : WsRequest → Deed
  handled : StreamEnd → Deed
  session_closed socket_closed : Deed
  slept : ℤ → Deed

-- `connectAndServe`, which always ends with an error: what it does, in order. A stream is handled in a
-- goroutine of its own, and stands where that is begun.
unfoldable pub connect_and_serve : (List ℕ → Bool) → WsRequest → Dialed → List Deed
connect_and_serve dials request refused = dialed request ∷ []
connect_and_serve dials request no_session = dialed request ∷ socket_closed ∷ []
connect_and_serve dials request (accepted streams) =
    dialed request ∷ map (λ stream. handled (handle_stream dials stream)) streams
    ++ session_closed ∷ socket_closed ∷ []

-- 5 * time.Second
abbrev pub retry_delay : ℤ
retry_delay = pos 5000000000

-- The rounds of `Start`.
unfoldable pub start : (List ℕ → Bool) → WsRequest → List Dialed → List Deed
start dials request [] = []
start dials request (d ∷ ds) =
    connect_and_serve dials request d ++ slept retry_delay ∷ start dials request ds
