-- ===== src/Tunnel/Forward.antt =====
-- A tunnel client that reaches its server through the gateway.
use k8s_docker_operator.Prelude.{
  ℕ, ◌≡◌, ◌≢◌, refl, ap, [], ◌∷◌, ◌++◌, ◌∙◌, String, Bool, Option, none, some, List, true, arith,
}
use k8s_docker_operator.Prelude.Text.{codes, find_key, store_key, str_ne}
use k8s_docker_operator.Exec.{given}
use k8s_docker_operator.Tunnel.Server.{Server, WsRequest, WsReply, registered, handle_ws}
use k8s_docker_operator.Tunnel.Targets.{text_eq_iff}
use k8s_docker_operator.Tunnel.Start.{Endpoint, tunnel, reload, endpoint}
use k8s_docker_operator.Tunnel.Gateway.{
  Url, Urls, Request, get_value, target_url, forwarded_query, forwarded, direct,
}

module _ (urls : Urls) where
  -- A query has the same values when it is printed and parsed again.
  abbrev pub IsPrintable : List (String × String) → Type 0
  IsPrintable q = (key : String) → find_key key (urls.query (urls.encode q)) ≡ find_key key q

  direct-forwarded :
      (req : Request) (target : Url)
      → get_value "target" (urls.query req.url.raw_query) ≢ ""
      → target_url urls (get_value "target" (urls.query req.url.raw_query)) ≡ some target
      → direct urls req ≡ forwarded urls req target
  unfolding direct given
  direct-forwarded req target some_target parsed =
      rw (str_ne (get_value "target" (urls.query req.url.raw_query)) "" some_target, parsed) refl

  forwarded-token :
      (req : Request) (target : Url)
      → IsPrintable (forwarded_query urls req target)
      → get_value "token" (urls.query req.url.raw_query) ≢ ""
      → get_value "token" (urls.query (forwarded urls req target).url.raw_query)
        ≡ get_value "token" (urls.query req.url.raw_query)
  unfolding get_value given store_key find_key
  forwarded-token req target law some_token =
      ap (λ o. given o (λ (v : String). v) "") (law "token") ∙ kept
    where
      kept :
          get_value "token" (forwarded_query urls req target)
          ≡ get_value "token" (urls.query req.url.raw_query)
      kept = rw (str_ne _ "" some_token) refl

  -- What `handleWS` reads of a request that the gateway passes on: the token of its query. The path decides
  -- whether it is asked, below; it reads no header.
  abbrev pub arrives : Request → WsRequest
  arrives req = record {
    query_token = codes (get_value "token" (urls.query req.url.raw_query));
    header_token = [];
  }

  abbrev asked : Endpoint → Request → Bool → Option ℕ → Server → Option (WsReply × Server)
  asked tunnel req upgrades session s = some (handle_ws (arrives req) upgrades session s)
  asked reload req upgrades session s = none

  -- The answer of `handleWS` to a request at the server, `none` where it has the path of another handler or
  -- of none.
  abbrev pub meets : Request → Bool → Option ℕ → Server → Option (WsReply × Server)
  meets req upgrades session s =
      given (endpoint req.url.path) (λ e. asked e req upgrades session s) none

  forwarded-endpoint :
      (req : Request) (target : Url)
      → target.path ≡ "/ws"
      → endpoint (forwarded urls req target).url.path ≡ some tunnel
  unfolding endpoint
  forwarded-endpoint req target path = rw path refl

  meets-registered :
      (req : Request) (id : ℕ) (s : Server)
      → endpoint req.url.path ≡ some tunnel
      → (arrives req).query_token ≡ s.auth_token
      → meets req true (some id) s
        ≡ some (registered, record s { sessions = s.sessions ++ id ∷ [] })
  unfolding given handle_ws
  meets-registered req id s at_tunnel known =
      let same = text_eq_iff (arrives req).query_token s.auth_token in
      rw (at_tunnel, same.1 known) (ground arith)

  -- A request at the gateway, for a target that is a URL with the path /ws, and with a token that is the server's
  -- and not empty, where the query that is passed on keeps its values in print: it is passed on to the host
  -- of the target, and there, where the upgrade and the session succeed, `handleWS` answers it by putting its
  -- session behind those that the server has, and changes nothing else.
  pub direct-handle_ws :
      (req : Request) (target : Url) (id : ℕ) (s : Server)
      → IsPrintable (forwarded_query urls req target)
      → get_value "target" (urls.query req.url.raw_query) ≢ ""
      → target_url urls (get_value "target" (urls.query req.url.raw_query)) ≡ some target
      → target.path ≡ "/ws"
      → get_value "token" (urls.query req.url.raw_query) ≢ ""
      → codes (get_value "token" (urls.query req.url.raw_query)) ≡ s.auth_token
      → ((direct urls req).host ≡ target.host)
        × ((direct urls req).url.host ≡ target.host)
        × (meets (direct urls req) true (some id) s
            ≡ some (registered, record s { sessions = s.sessions ++ id ∷ [] }))
  direct-handle_ws req target id s law some_target parsed path some_token known =
      rw (direct-forwarded req target some_target parsed) (
        refl,
        refl,
        meets-registered (forwarded urls req target) id s (forwarded-endpoint req target path)
            (ap codes (forwarded-token req target law some_token) ∙ known),
      )
