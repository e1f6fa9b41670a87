-- ===== src/Tunnel/Lifetime.antt =====
-- The life of a server: what holds of it whatever handlers run, in whatever order.
use k8s_docker_operator.Prelude.{
  ℕ, zero, suc, ◌%◌, ◌<◌, ◌^◌, ◌≡◌, Bool, Bool-cases, inl, inr, true, false, List, [], ◌∷◌, ◌++◌,
  Option, none, some, All, get_elem?, length, ◌==◌, arith,
}
use k8s_docker_operator.Prelude.Int.{ℤ}
use k8s_docker_operator.Prelude.Text.{trim_left, trim_right, trim_space, split}
use k8s_docker_operator.Exec.{given}
use k8s_docker_operator.Tunnel.Targets.{Text, comma, NoComma, is_empty, clean, parse_targets}
use k8s_docker_operator.Tunnel.Server.{
  Server, new_server, set_targets_file, Route, selected, no_client, no_targets, pick, route, piped,
  newline, serve, handle_tcp, WsRequest, handle_ws, disconnect, file_targets,
  load_targets_from_file, handle_reload,
}
use k8s_docker_operator.Manager.Flags.{TunnelFlags}
use k8s_docker_operator.Manager.Run.{server_of}

-- The handlers of the server, each with what the outside answers.
pub data Step : Server → Server → Type 0 where
  connection : (opens writes : Bool) (s : Server) → Step s (handle_tcp opens writes s).1
  websocket :
      (request : WsRequest) (upgrades : Bool) (session : Option ℕ) (s : Server)
      → Step s (handle_ws request upgrades session s).1
  disconnection : (id : ℕ) (s : Server) → Step s (disconnect id s)
  reload :
      (is_post : Bool) (targets : Text) (now : ℤ) (file : Option Text) (s : Server)
      → Step s (handle_reload is_post targets now file s).1
  watch : (now : ℤ) (file : Option Text) (s : Server) → Step s (load_targets_from_file now file s)

-- The servers that come from the flags of the command by some handlers.
pub data Life (f : TunnelFlags) : Server → Type 0 where
  begun : Life f (server_of f)
  goes_on : {s t : Server} → Life f s → Step s t → Life f t

abbrev pub IsTarget : Text → Type 0
IsTarget t = NoComma t × (is_empty t ≡ false)

split-NoComma : (s : Text) → All NoComma (split comma s)
unfolding split
split-NoComma [] = (tt, tt)
split-NoComma (c ∷ s) = elim (Bool-cases (c == comma)) [
  | inl at_comma ↦ rw at_comma (tt, split-NoComma s)
  | inr other ↦ rw other (put-NoComma (split comma s) (split-NoComma s) other)
]
  where
    put-NoComma :
        (ws : List Text)
        → All NoComma ws
        → (c == comma) ≡ false
        → All NoComma (elim ws [ [] ↦ (c ∷ []) ∷ [] | w ∷ ws ↦ (c ∷ w) ∷ ws ])
    put-NoComma [] h other = ((other, tt), tt)
    put-NoComma (w ∷ ws) h other = ((other, h.0), h.1)

trim_left-NoComma : (s : Text) → NoComma s → NoComma (trim_left s)
unfolding trim_left
trim_left-NoComma [] h = h
trim_left-NoComma (c ∷ s) h = ground (arith, trim_left-NoComma s)

trim_right-NoComma : (s : Text) → NoComma s → NoComma (trim_right s)
unfolding trim_right
trim_right-NoComma [] h = h
trim_right-NoComma (c ∷ s) h = ground (arith, trim_right-NoComma s)

trim_space-NoComma : (s : Text) → NoComma s → NoComma (trim_space s)
unfolding trim_space
trim_space-NoComma s h = trim_right-NoComma (trim_left s) (trim_left-NoComma s h)

clean-IsTarget : (ts : List Text) → All NoComma ts → All IsTarget (clean ts)
unfolding clean
clean-IsTarget [] h = h
clean-IsTarget (t ∷ ts) h = elim (Bool-cases (is_empty (trim_space t))) [
  | inl blank ↦ rw blank (clean-IsTarget ts h.1)
  | inr kept ↦ rw kept ((trim_space-NoComma t h.0, kept), clean-IsTarget ts h.1)
]

parse_targets-IsTarget : (text : Text) → All IsTarget (parse_targets text)
unfolding parse_targets
parse_targets-IsTarget text = clean-IsTarget (split comma text) (split-NoComma text)

abbrev pub WellFormed : Server → Type 0
WellFormed s = All IsTarget s.targets × All IsTarget s.push_targets × (s.rr_index < 2 ^ 64)

load-WellFormed :
    (now : ℤ) (file : Option Text) (s : Server)
    → WellFormed s
    → WellFormed (load_targets_from_file now file s)
unfolding load_targets_from_file file_targets
load-WellFormed now none s h = h
load-WellFormed now (some content) s h =
    ground (arith, h, parse_targets-IsTarget (trim_space content))

reload-WellFormed :
    (is_post : Bool) (targets : Text) (now : ℤ) (file : Option Text) (s : Server)
    → WellFormed s
    → WellFormed (handle_reload is_post targets now file s).1
unfolding handle_reload
reload-WellFormed is_post targets now file s h =
    ground (arith, h, parse_targets-IsTarget targets, load-WellFormed now file s h)

Step-WellFormed : {s t : Server} → Step s t → WellFormed s → WellFormed t
unfolding handle_tcp route handle_ws disconnect given
Step-WellFormed (connection opens writes s) h = ground (arith, h)
Step-WellFormed (websocket request upgrades session s) h = ground (arith, h)
Step-WellFormed (disconnection id s) h = h
Step-WellFormed (reload is_post targets now file s) h =
    reload-WellFormed is_post targets now file s h
Step-WellFormed (watch now file s) h = load-WellFormed now file s h

server_of-WellFormed : (f : TunnelFlags) → WellFormed (server_of f)
unfolding server_of new_server set_targets_file
server_of-WellFormed f = ground (arith, parse_targets-IsTarget f.targets)

Life-WellFormed : {f : TunnelFlags} {s : Server} → Life f s → WellFormed s
Life-WellFormed {f = f} begun = server_of-WellFormed f
Life-WellFormed (goes_on life step) = Step-WellFormed step (Life-WellFormed life)

All-get_elem? :
    (ts : List Text) (i : ℕ) (t : Text) → All IsTarget ts → get_elem? ts i ≡ some t → IsTarget t
All-get_elem? [] i t h e = absurd (ground arith)
All-get_elem? (x ∷ ts) zero t h e = let same : x ≡ t = cc e in rw (← same) h.0
All-get_elem? (x ∷ ts) (suc i) t h e = All-get_elem? ts i t h.1 e

pick-target :
    (o : Option Text) (q : Option ℕ) (t : Text) (session : ℕ)
    → pick o q ≡ selected t session
    → o ≡ some t
pick-target (some x) (some y) t session e = cc e
pick-target (some x) none t session e = absurd (ground arith)
pick-target none q t session e = absurd (ground arith)

route-IsTarget :
    (s : Server) (t : Text) (session : ℕ)
    → WellFormed s
    → (route s).0 ≡ selected t session
    → IsTarget t
unfolding route
route-IsTarget s t session h e = elim (Bool-cases (length s.sessions == 0)) [
  | inl alone ↦ absurd (ground (arith, alone, e))
  | inr joined ↦ elim (Bool-cases (length s.targets == 0)) [
    | inl empty ↦ absurd (ground (arith, joined, empty, e))
    | inr some_target ↦ All-get_elem? s.targets (s.rr_index % length s.targets) t h.0 (
        pick-target (get_elem? s.targets (s.rr_index % length s.targets))
          (get_elem? s.sessions (s.rr_index % length s.sessions)) t session
          (ground (arith, joined, some_target, e)))
  ]
]

serve-piped :
    (opens writes : Bool) (r : Route) (session : ℕ) (bytes : List ℕ)
    → serve opens writes r ≡ piped session bytes
    → (t : Text) × (r ≡ selected t session) × (bytes ≡ t ++ newline ∷ [])
serve-piped true true (selected t n) session bytes e = (t, cc e, cc e)
serve-piped true false (selected t n) session bytes e = absurd (ground arith)
serve-piped false writes (selected t n) session bytes e = absurd (ground arith)
serve-piped opens writes no_client session bytes e = absurd (ground arith)
serve-piped opens writes no_targets session bytes e = absurd (ground arith)

-- Whatever handlers have run, in whatever order, on a server that the command started: the cursor has 64
-- bits, every target in force or pushed is a text that is not empty and has no comma, and so is the
-- target that a connection writes, with a newline behind it, on the stream that it opens.
pub Life-handle_tcp :
    {f : TunnelFlags} {s : Server}
    → Life f s
    → WellFormed s
      × ((opens writes : Bool) (session : ℕ) (bytes : List ℕ)
          → (handle_tcp opens writes s).0 ≡ piped session bytes
          → (t : Text) × IsTarget t × (bytes ≡ t ++ newline ∷ []))
unfolding handle_tcp
Life-handle_tcp {s = s} life =
    let h = Life-WellFormed life in
    (
      h,
      λ opens writes session bytes e.
          let (t, chosen, wrote) = serve-piped opens writes (route s).0 session bytes e in
          (t, route-IsTarget s t session h chosen, wrote),
    )
