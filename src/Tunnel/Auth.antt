-- ===== src/Tunnel/Auth.antt =====
-- Who is let in by `handleWS`, and the registry of sessions.
use k8s_docker_operator.Prelude.{
  ℕ, ◌≡◌, ◌≢◌, refl, ◌↔◌, ◌⊎◌, Bool, true, false, not, ◌&&◌, ◌||◌, List, [], ◌∷◌, ◌++◌, Option,
  none, some, arith, ◌==◌,
}
use k8s_docker_operator.Exec.{given}
use k8s_docker_operator.Tunnel.Targets.{Text, is_empty, text_eq_iff}
use k8s_docker_operator.Tunnel.Server.{
  Server, WsRequest, forbidden, registered, handle_ws, remove_first, disconnect,
}
use k8s_docker_operator.Tunnel.Client.{Client, connect_request}

-- What `handleWS` changes when it registers: its session stands behind the others.
handle_ws-registered :
    (request : WsRequest) (upgrades : Bool) (session : Option ℕ) (s : Server)
    → (handle_ws request upgrades session s).0 ≡ registered
    → (id : ℕ) × (session ≡ some id)
      × ((handle_ws request upgrades session s).1 ≡ record s { sessions = s.sessions ++ id ∷ [] })
unfolding handle_ws given
handle_ws-registered request upgrades none s h = absurd (ground arith)
handle_ws-registered request upgrades (some id) s h = (id, refl, ground arith)

handle_ws_cases :
    (request : WsRequest) (upgrades : Bool) (session : Option ℕ) (s : Server)
    → ((handle_ws request upgrades session s).0 ≡ registered
        ↔ ((is_empty s.auth_token ≡ true) ⊎ (request.query_token ≡ s.auth_token))
          × (upgrades ≡ true)
          × (session ≢ none))
      × ((handle_ws request upgrades session s).0 ≢ registered
          → (handle_ws request upgrades session s).1 ≡ s)
      × (is_empty s.auth_token ≡ false
          → request.query_token ≢ s.auth_token
          → (handle_ws request upgrades session s).0 ≡ forbidden)
unfolding handle_ws given
handle_ws_cases request upgrades session s =
    ground (arith, text_eq_iff request.query_token s.auth_token)

-- A request is answered as registered exactly if the server has no token or the query carries it, and the
-- upgrade and the session succeed. Then the sessions are those before and, behind them, that of the
-- request, and nothing else of the server is changed. With every other answer the server is as it was, and
-- with a wrong token the answer is that the request is forbidden.
pub handle_ws-exact :
    (request : WsRequest) (upgrades : Bool) (session : Option ℕ) (s : Server)
    → ((handle_ws request upgrades session s).0 ≡ registered
        ↔ ((is_empty s.auth_token ≡ true) ⊎ (request.query_token ≡ s.auth_token))
          × (upgrades ≡ true)
          × (session ≢ none))
      × ((handle_ws request upgrades session s).0 ≡ registered
          → (id : ℕ) × (session ≡ some id)
            × ((handle_ws request upgrades session s).1
                ≡ record s { sessions = s.sessions ++ id ∷ [] }))
      × ((handle_ws request upgrades session s).0 ≢ registered
          → (handle_ws request upgrades session s).1 ≡ s)
      × (is_empty s.auth_token ≡ false
          → request.query_token ≢ s.auth_token
          → (handle_ws request upgrades session s).0 ≡ forbidden)
handle_ws-exact request upgrades session s =
    let (accepted, kept, refused) = handle_ws_cases request upgrades session s in
    (accepted, handle_ws-registered request upgrades session s, kept, refused)

-- A server with a token forbids every client whose address carries no token in its query, whatever
-- token the client was given.
pub header_token_ignored :
    (query_token : Text → Text) (c : Client) (upgrades : Bool) (session : Option ℕ) (s : Server)
    → query_token c.server_addr ≡ []
    → is_empty s.auth_token ≡ false
    → handle_ws (connect_request query_token c) upgrades session s ≡ (forbidden, s)
unfolding handle_ws connect_request
header_token_ignored query_token c upgrades session s no_query has_token =
    ground (arith, text_eq_iff (query_token c.server_addr) s.auth_token)

-- Whether a session is registered.
abbrev pub member : ℕ → List ℕ → Bool
member j [] = false
member j (x ∷ xs) = x == j || member j xs

abbrev pub Distinct : List ℕ → Type 0
Distinct [] = Unit
Distinct (x ∷ xs) = (member x xs ≡ false) × Distinct xs

pub member-remove_first :
    (id j : ℕ) (xs : List ℕ)
    → Distinct xs
    → member j (remove_first id xs) ≡ member j xs && not (j == id)
unfolding remove_first
member-remove_first id j [] h = refl
member-remove_first id j (x ∷ xs) h = ground (arith, member-remove_first id j xs)

pub Distinct-remove_first : (id : ℕ) (xs : List ℕ) → Distinct xs → Distinct (remove_first id xs)
unfolding remove_first
Distinct-remove_first id [] h = tt
Distinct-remove_first id (x ∷ xs) h =
    ground (arith, Distinct-remove_first id xs, member-remove_first id x xs)

pub member-append : (j id : ℕ) (xs : List ℕ) → member j (xs ++ id ∷ []) ≡ member j xs || id == j
member-append j id [] = ground arith
member-append j id (x ∷ xs) = ground (arith, member-append j id xs)

pub Distinct-append :
    (id : ℕ) (xs : List ℕ) → member id xs ≡ false → Distinct xs → Distinct (xs ++ id ∷ [])
Distinct-append id [] fresh h = (refl, tt)
Distinct-append id (x ∷ xs) fresh h = ground (arith, Distinct-append id xs, member-append x id xs)

-- A step of the registry: a request that is answered, with a session that no other has, or the end of a session.
pub data Step : Server → Server → Type 0 where
  joins :
      (request : WsRequest) (upgrades : Bool) (id : ℕ) (s : Server)
      → member id s.sessions ≡ false
      → Step s (handle_ws request upgrades (some id) s).1
  leaves : (id : ℕ) (s : Server) → Step s (disconnect id s)

pub data Reach (s : Server) : Server → Type 0 where
  here : Reach s s
  next : {t u : Server} → Reach s t → Step t u → Reach s u

Step-Distinct : {s t : Server} → Step s t → Distinct s.sessions → Distinct t.sessions
unfolding handle_ws disconnect given
Step-Distinct (joins request upgrades id s fresh) h =
    ground (arith, Distinct-append id s.sessions fresh h)
Step-Distinct (leaves id s) h = Distinct-remove_first id s.sessions h

pub Reach-Distinct : {s t : Server} → Distinct s.sessions → Reach s t → Distinct t.sessions
Reach-Distinct h here = h
Reach-Distinct h (next r step) = Step-Distinct step (Reach-Distinct h r)

-- In every server reached from one with distinct sessions by requests with fresh sessions and by ends of
-- sessions, the clean-up of a session takes out that session and no other.
pub disconnect-member :
    {s t : Server}
    → Distinct s.sessions
    → Reach s t
    → (id j : ℕ) → member j (disconnect id t).sessions ≡ member j t.sessions && not (j == id)
unfolding disconnect
disconnect-member {t = t} h r id j = member-remove_first id j t.sessions (Reach-Distinct h r)
