-- ===== src/Tunnel/Registry.antt =====
-- The registry of sessions, as a set: what the handlers of the server do to the list of sessions.
use k8s_docker_operator.Prelude.{
  ℕ, ◌≡◌, refl, ap, ◌∙◌, Bool, false, not, ◌&&◌, ◌||◌, List, [], ◌∷◌, Option, none, some, arith,
  ◌==◌,
}
use k8s_docker_operator.Prelude.Int.{ℤ}
use k8s_docker_operator.Exec.{given}
use k8s_docker_operator.Tunnel.Targets.{Text, is_empty, text_eq}
use k8s_docker_operator.Tunnel.Server.{
  Server, WsRequest, handle_tcp, route, handle_ws, disconnect, handle_reload,
  load_targets_from_file,
}
use k8s_docker_operator.Tunnel.Auth.{
  member, Distinct, member-append, member-remove_first, Distinct-append, Distinct-remove_first,
}

-- A handler, with what the outside answers. A request for a tunnel comes with the session that it would
-- get.
pub data Event : Type 0 where
  tunnel_asked : WsRequest → Bool → ℕ → Event
  session_ended : ℕ → Event
  visited : Bool → Bool → Event
  reloaded : Bool → Text → ℤ → Option Text → Event
  file_read : ℤ → Option Text → Event

unfoldable pub handle_event : Event → Server → Server
handle_event (tunnel_asked request upgrades id) s = (handle_ws request upgrades (some id) s).1
handle_event (session_ended id) s = disconnect id s
handle_event (visited opens writes) s = (handle_tcp opens writes s).1
handle_event (reloaded is_post targets now file) s = (handle_reload is_post targets now file s).1
handle_event (file_read now file) s = load_targets_from_file now file s

abbrev pub handle_events : List Event → Server → Server
handle_events [] s = s
handle_events (e ∷ es) s = handle_events es (handle_event e s)

-- The specification: a set of sessions, to which an admitted request adds its session, and from which the
-- end of a session takes it.
abbrev pub admits : Text → WsRequest → Bool → Bool
admits token request upgrades = (is_empty token || text_eq request.query_token token) && upgrades

abbrev pub specified : Text → Event → (ℕ → Bool) → ℕ → Bool
specified token (tunnel_asked request upgrades id) set j =
    set j || (admits token request upgrades && id == j)
specified token (session_ended id) set j = set j && not (j == id)
specified token _ set j = set j

abbrev pub specified_all : Text → List Event → (ℕ → Bool) → ℕ → Bool
specified_all token [] set = set
specified_all token (e ∷ es) set = specified_all token es (specified token e set)

-- No session of a request is registered already.
abbrev pub IsNew : Event → Server → Type 0
IsNew (tunnel_asked request upgrades id) s = member id s.sessions ≡ false
IsNew _ s = Unit

abbrev pub AllNew : List Event → Server → Type 0
AllNew [] s = Unit
AllNew (e ∷ es) s = IsNew e s × AllNew es (handle_event e s)

handle_event-Distinct :
    (e : Event) (s : Server)
    → IsNew e s
    → Distinct s.sessions
    → Distinct (handle_event e s).sessions
unfolding handle_event handle_ws disconnect handle_tcp route handle_reload load_targets_from_file
    given
handle_event-Distinct (tunnel_asked request upgrades id) s new h =
    ground (arith, Distinct-append id s.sessions new h)
handle_event-Distinct (session_ended id) s new h = Distinct-remove_first id s.sessions h
handle_event-Distinct (visited opens writes) s new h = ground (arith, h)
handle_event-Distinct (reloaded is_post targets now none) s new h = ground (arith, h)
handle_event-Distinct (reloaded is_post targets now (some content)) s new h = ground (arith, h)
handle_event-Distinct (file_read now none) s new h = h
handle_event-Distinct (file_read now (some content)) s new h = ground (arith, h)

handle_event-token : (e : Event) (s : Server) → (handle_event e s).auth_token ≡ s.auth_token
unfolding handle_event handle_ws disconnect handle_tcp route handle_reload load_targets_from_file
    given
handle_event-token (tunnel_asked request upgrades id) s = ground arith
handle_event-token (session_ended id) s = refl
handle_event-token (visited opens writes) s = ground arith
handle_event-token (reloaded is_post targets now none) s = ground arith
handle_event-token (reloaded is_post targets now (some content)) s = ground arith
handle_event-token (file_read now none) s = refl
handle_event-token (file_read now (some content)) s = ground arith

handle_event-specified :
    (e : Event) (s : Server) (set : ℕ → Bool) (j : ℕ)
    → Distinct s.sessions
    → member j s.sessions ≡ set j
    → member j (handle_event e s).sessions ≡ specified s.auth_token e set j
unfolding handle_event handle_ws disconnect handle_tcp route handle_reload load_targets_from_file
    given
handle_event-specified (tunnel_asked request upgrades id) s set j h same =
    ground (arith, same, member-append j id s.sessions)
handle_event-specified (session_ended id) s set j h same =
    ground (arith, same, member-remove_first id j s.sessions h)
handle_event-specified (visited opens writes) s set j h same = ground (arith, same)
handle_event-specified (reloaded is_post targets now none) s set j h same = ground (arith, same)
handle_event-specified (reloaded is_post targets now (some content)) s set j h same =
    ground (arith, same)
handle_event-specified (file_read now none) s set j h same = same
handle_event-specified (file_read now (some content)) s set j h same = ground (arith, same)

-- A server whose sessions are distinct and are the elements of a set, after any sequence of handlers in
-- which the requests for a tunnel bring new sessions: its sessions are the elements of the set to which the
-- specification brings that set with the same sequence.
pub handle_events-specified :
    (es : List Event) (s : Server) (set : ℕ → Bool)
    → Distinct s.sessions
    → AllNew es s
    → ((j : ℕ) → member j s.sessions ≡ set j)
    → (j : ℕ) → member j (handle_events es s).sessions ≡ specified_all s.auth_token es set j
handle_events-specified [] s set h new same j = same j
handle_events-specified (e ∷ es) s set h new same j =
    handle_events-specified es (handle_event e s) (specified s.auth_token e set)
      (handle_event-Distinct e s new.0 h) new.1 (λ i. handle_event-specified e s set i h (same i)) j
    ∙ ap (λ token. specified_all token es (specified s.auth_token e set) j) (handle_event-token e s)
