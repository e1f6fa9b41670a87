-- ===== src/Manager/Startup.antt =====
-- The start of the manager is a list of calls, made up to the first that fails.
use k8s_docker_operator.Prelude.{
  ◌≡◌, refl, sym, ap, ◌∙◌, [], ◌∷◌, ◌++◌, All, append-nil, append_assoc,
}
use k8s_docker_operator.Exec.{Result, Error, ok, err, Exec, pure, raise, branch, ◌>>=◌}
use k8s_docker_operator.Manager.Start.{
  ManagerFlags, manager_options, setup_container, setup_host, setup_service, setup_job,
  setup_deployment, Call, Calls, new_manager, complete, add_healthz, add_readyz, serve_logs, start,
  must, spawn, run_manager,
}

-- The calls of a start in which none fails, the first of them first.
abbrev pub startup : ManagerFlags → Calls
startup f =
    new_manager (manager_options f)
    ∷ complete setup_container
    ∷ complete setup_host
    ∷ complete setup_service
    ∷ complete setup_job
    ∷ complete setup_deployment
    ∷ add_healthz
    ∷ add_readyz
    ∷ serve_logs f.logs_addr
    ∷ start
    ∷ []

module _ (answer : Call → Result (Unit {0})) where
  -- What `main` goes on after, and what ends it.
  abbrev pub Works : Call → Type 0
  Works (serve_logs _) = Unit
  Works c = answer c ≡ ok tt

  abbrev pub Fails : Call → Error → Type 0
  Fails (serve_logs _) e = ⊥
  Fails c e = answer c ≡ err e

  abbrev make : Call → Exec Calls (Unit {0})
  make (serve_logs addr) = spawn answer (serve_logs addr)
  make c = must answer c

  abbrev in_order : Calls → Exec Calls (Unit {0})
  in_order [] = pure tt
  in_order (c ∷ cs) = make c >>= λ _. in_order cs

  pure-last :
      (r : Result (Unit {0})) (calls : Calls) → branch (λ _. pure tt) raise r calls ≡ (r, calls)
  unfolding branch pure raise
  pure-last (ok _) calls = refl
  pure-last (err e) calls = refl

  run_manager-in_order : (f : ManagerFlags) → run_manager answer f [] ≡ in_order (startup f) []
  unfolding run_manager ◌>>=◌
  run_manager-in_order f =
      let last : (make start >>= λ _. pure tt) ≡ make start =
        λ j. λ calls. pure-last (answer start) (calls ++ start ∷ []) j in
      rw last refl

  make-Works : (c : Call) (calls : Calls) → Works c → make c calls ≡ (ok tt, calls ++ c ∷ [])
  unfolding must spawn
  make-Works (new_manager o) calls w = rw w refl
  make-Works (complete r) calls w = rw w refl
  make-Works add_healthz calls w = rw w refl
  make-Works add_readyz calls w = rw w refl
  make-Works (serve_logs a) calls w = refl
  make-Works start calls w = rw w refl

  make-Fails :
      (c : Call) (calls : Calls) (e : Error) → Fails c e → make c calls ≡ (err e, calls ++ c ∷ [])
  unfolding must
  make-Fails (new_manager o) calls e w = rw w refl
  make-Fails (complete r) calls e w = rw w refl
  make-Fails add_healthz calls e w = rw w refl
  make-Fails add_readyz calls e w = rw w refl
  make-Fails (serve_logs a) calls e w = absurd w
  make-Fails start calls e w = rw w refl

  in_order-Works : (cs calls : Calls) → All Works cs → in_order cs calls ≡ (ok tt, calls ++ cs)
  unfolding ◌>>=◌
  in_order-Works [] calls works = ap (λ l. (ok tt, l)) (sym (append-nil calls))
  in_order-Works (c ∷ cs) calls works = rw (make-Works c calls works.0) (
      in_order-Works cs (calls ++ c ∷ []) works.1
      ∙ ap (λ l. (ok tt, l)) (append_assoc calls (c ∷ []) cs))

  in_order-Fails :
      (before after calls : Calls) (c : Call) (e : Error)
      → All Works before
      → Fails c e
      → in_order (before ++ c ∷ after) calls ≡ (err e, calls ++ (before ++ c ∷ []))
  unfolding ◌>>=◌ raise
  in_order-Fails [] after calls c e works fails = rw (make-Fails c calls e fails) refl
  in_order-Fails (b ∷ before) after calls c e works fails = rw (make-Works b calls works.0) (
      in_order-Fails before after (calls ++ b ∷ []) c e works.1 fails
      ∙ ap (λ l. (err e, l)) (append_assoc calls (b ∷ []) (before ++ c ∷ [])))

  pub run_manager-starts :
      (f : ManagerFlags) → All Works (startup f) → run_manager answer f [] ≡ (ok tt, startup f)
  run_manager-starts f works = run_manager-in_order f ∙ in_order-Works (startup f) [] works

  -- When one of the ten calls of a start fails and those before it succeed, the program ends with its error, and has
  -- made those and the failed one, in the order of `startup`, and no other. The server of the logs cannot fail the
  -- start.
  pub run_manager-stops :
      (f : ManagerFlags) (before after : Calls) (c : Call) (e : Error)
      → startup f ≡ before ++ c ∷ after
      → All Works before
      → Fails c e
      → run_manager answer f [] ≡ (err e, before ++ c ∷ [])
  run_manager-stops f before after c e split works fails =
      run_manager-in_order f
      ∙ ap (λ cs. in_order cs []) split
      ∙ in_order-Fails before after [] c e works fails
