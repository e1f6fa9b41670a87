-- ===== src/ContainerController/Steady.antt =====
-- The passes of `syncContainer` over a container that is there and does not differ from its spec.
use k8s_docker_operator.Prelude.{
  ◌≡◌, refl, ap, ◌∙◌, sym, ◌≢◌, Bool, String, Option, none, some, List, [], ◌∷◌, ◌++◌, true, false,
  if◌then◌else◌,
}
use text.Mathlib.TextPositions.{eq_refl}
use k8s_docker_operator.Prelude.Text.{◌<>◌, str_ne}
use k8s_docker_operator.Exec.{Result, ok, err, branch, raise, pure, given, ◌>>=◌, ◌>>◌}
use k8s_docker_operator.Api.Container.{DockerContainer, DockerContainerSpec}
use k8s_docker_operator.Outside.Docker.{Client, Inspected, Listed, ContainerState, Network}
use k8s_docker_operator.Outside.Calls.{
  Env, World, Effect, ask, act, container_started, object_status_updated,
}
use k8s_docker_operator.ContainerController.Drift.{needs_recreate}
use k8s_docker_operator.ContainerController.Sync.{
  find_container, keep, note, Noted, note_state, note_health, note_address, peek, store_status,
  ensure_running, correct_drift, sync_found, sync_container,
}

-- What an inspection says of health and addresses is written once.
inspection_settled :
    (state : Option ContainerState) (networks : Option (List Network)) (target : Listed)
    (cr : DockerContainer)
    → let once =
        given networks note_address
          (λ n. n)
          (given state note_health (λ n. n) (note_state target cr)) in
      (given networks note_address
        (λ n. n)
        (given state note_health (λ n. n) (note_state target once.container))).changed
      ≡ false
unfolding given note_state note_health note_address
inspection_settled none none target cr = rw (eq_refl, eq_refl) refl
inspection_settled none (some ips) target cr = rw (eq_refl, eq_refl, eq_refl) refl
inspection_settled (some s) none target cr = rw (eq_refl, eq_refl, eq_refl) refl
inspection_settled (some s) (some ips) target cr = rw (eq_refl, eq_refl, eq_refl, eq_refl) refl

inspection-spec :
    (state : Option ContainerState) (networks : Option (List Network)) (n : Noted)
    → (given networks note_address (λ m. m) (given state note_health (λ m. m) n)).container.spec
      ≡ n.container.spec
unfolding given note_health note_address
inspection-spec none none n = refl
inspection-spec none (some ips) n = refl
inspection-spec (some s) none n = refl
inspection-spec (some s) (some ips) n = refl

note-spec :
    (target : Listed) (inspected : Inspected) (cr : DockerContainer)
    → (note target (some inspected) cr).container.spec ≡ cr.spec
unfolding note note_state
note-spec target inspected cr =
    inspection-spec inspected.state inspected.networks (note_state target cr)

abbrev pub seen_of : Result Inspected → Option Inspected
seen_of r = elim r [ ok seen ↦ some seen | err _ ↦ none ]

seen_of-some :
    (r : Result Inspected) (inspected : Inspected) → seen_of r ≡ some inspected → r ≡ ok inspected
seen_of-some (ok seen) inspected h = cc
seen_of-some (err e) inspected h = cc

note_seen-spec :
    (target : Listed) (seen : Option Inspected) (cr : DockerContainer)
    → (note target seen cr).container.spec ≡ cr.spec
unfolding note note_state
note_seen-spec target none cr = refl
note_seen-spec target (some inspected) cr = note-spec target inspected cr

note_settled :
    (target : Listed) (inspected : Inspected) (cr : DockerContainer)
    → (note target (some inspected) (note target (some inspected) cr).container).changed ≡ false
unfolding note
note_settled target inspected cr = inspection_settled inspected.state inspected.networks target cr

module _ {W F : Type 0} (env : Env W F) (sort : List String → List String) (cli : Client)
    (target : Listed) (inspected : Inspected) where
  store_status_same :
      (n : Noted) (w : World W)
      → n.changed ≡ false
      → store_status env sort n w ≡ (ok n.container, w)
  unfolding store_status
  store_status_same n w same = rw same refl

  ensure_running_same :
      (v : World W) → target.state ≡ "running" → ensure_running env sort cli target v ≡ (ok tt, v)
  unfolding ensure_running pure
  ensure_running_same v up = rw up refl

  sync_found_steady :
      (cr : DockerContainer) (v : World W)
      → (env.docker.inspect cli target.id v.outside).0 ≡ ok inspected
      → target.state ≡ "running"
      → (note target (some inspected) cr).changed ≡ false
      → needs_recreate env.libs sort inspected (note target (some inspected) cr).container.spec
        ≡ false
      → sync_found env sort cli cr target v
        ≡ (ok tt, record v { outside = (env.docker.inspect cli target.id v.outside).1 })
  unfolding sync_found correct_drift peek ask ◌>>=◌
  sync_found_steady cr v seen up same fits =
      rw
        (
          seen,
          store_status_same (note target (some inspected) cr) _ same,
          ensure_running_same _ up,
          fits,
        )
        (unfold pure in refl)

  -- Once the status that a look at a container writes is stored, a later look at it, in any world in which
  -- the listing finds it running and the inspection answers the same, and at which its settings do not
  -- differ from the spec, makes no call that changes anything, and ends without an error.
  pub sync_container-settles :
      (cr : DockerContainer) (containers : List Listed) (w : World W)
      → (env.docker.list cli w.outside).0 ≡ ok containers
      → find_container ("/" <> cr.spec.container_name) containers ≡ some target
      → (env.docker.inspect cli target.id (env.docker.list cli w.outside).1).0 ≡ ok inspected
      → target.state ≡ "running"
      → needs_recreate env.libs sort inspected cr.spec ≡ false
      → ((sync_container env sort cli (note target (some inspected) cr).container w).0 ≡ ok tt)
        × ((sync_container env sort cli (note target (some inspected) cr).container w).1.trace
            ≡ w.trace)
  unfolding sync_container given ask ◌>>=◌
  sync_container-settles cr containers w listed found seen up fits =
      let v = record w { outside = (env.docker.list cli w.outside).1 } in
      let stored = (note target (some inspected) cr).container in
      let steady = sync_found_steady stored v seen up (note_settled target inspected cr) (
        ap (needs_recreate env.libs sort inspected)
          (note-spec target inspected stored ∙ note-spec target inspected cr)
        ∙ fits) in
      let same_name =
        ap (λ (spec : DockerContainerSpec). find_container ("/" <> spec.container_name) containers)
          (note-spec target inspected cr)
        ∙ found in
      rw (listed, same_name) (ap (λ r. r.0) steady, ap (λ r. r.1.trace) steady)

module _ {W F : Type 0} (env : Env W F) (sort : List String → List String) (cli : Client)
    (target : Listed) where
  -- What `syncContainer` notes of the container found, whether or not its inspection succeeds.
  abbrev pub noted : DockerContainer → World W → Noted
  noted cr w = note target (seen_of (env.docker.inspect cli target.id w.outside).0) cr

  -- The call that stores what was noted, if it is something new.
  abbrev pub stores : Noted → List Effect
  stores n = if n.changed then object_status_updated n.container ∷ [] else []

  -- Every answer to the update of the status of `n` keeps the spec.
  abbrev pub KeepsSpec : Noted → Type 0
  KeepsSpec n =
      (u : W) (stored : DockerContainer)
      → (env.containers.update_status n.container u).0 ≡ ok stored
      → stored.spec ≡ n.container.spec

  keep-spec :
      (c : DockerContainer) (r : Result DockerContainer)
      → ((stored : DockerContainer) → r ≡ ok stored → stored.spec ≡ c.spec)
      → (keep c r).spec ≡ c.spec
  keep-spec c (ok stored) law = law stored refl
  keep-spec c (err e) law = refl

  store_status-stores :
      (n : Noted) (v : World W)
      → KeepsSpec n
      → (stored : DockerContainer) × (v' : World W) × (store_status env sort n v ≡ (ok stored, v'))
        × (stored.spec ≡ n.container.spec)
        × (v'.trace ≡ stores n ++ v.trace)
  unfolding store_status act
  store_status-stores n v law = by_change n.changed refl
    where
      by_change :
          (changed : Bool)
          → n.changed ≡ changed
          → (stored : DockerContainer) × (v' : World W) × (store_status env sort n v
              ≡ (ok stored, v'))
            × (stored.spec ≡ n.container.spec)
            × (v'.trace ≡ stores n ++ v.trace)
      by_change true new =
          let r = env.containers.update_status n.container v.outside in
          (
            keep n.container r.0,
            record v { outside = r.1; trace = object_status_updated n.container ∷ v.trace },
            rw new refl,
            keep-spec n.container r.0 (λ stored e. law v.outside stored e),
            rw new refl,
          )
      by_change false same = (n.container, v, rw same refl, refl, rw same refl)

  correct_drift_same :
      (c : DockerContainer) (seen : Option Inspected) (v : World W)
      → ((inspected : Inspected)
          → seen ≡ some inspected
          → needs_recreate env.libs sort inspected c.spec ≡ false)
      → correct_drift env sort cli c target seen v ≡ (ok tt, v)
  unfolding correct_drift pure
  correct_drift_same c none v fits = refl
  correct_drift_same c (some inspected) v fits = rw (fits inspected refl) refl

  start_found :
      (c : DockerContainer) (seen : Option Inspected) (v : World W)
      → target.state ≢ "running"
      → ((inspected : Inspected)
          → seen ≡ some inspected
          → needs_recreate env.libs sort inspected c.spec ≡ false)
      → ((ensure_running env sort cli target >> correct_drift env sort cli c target seen) v).1.trace
        ≡ container_started cli target.id ∷ v.trace
  unfolding ensure_running act branch raise ◌>>=◌
  start_found c seen v down fits =
      let r = env.docker.start cli target.id v.outside in
      rw (str_ne target.state "running" down) (
        after_start r.0
          (record v { outside = r.1; trace = container_started cli target.id ∷ v.trace }))
    where
      after_start :
          (r : Result (Unit {0})) (v : World W)
          → (branch (λ _. correct_drift env sort cli c target seen) raise r v).1.trace ≡ v.trace
      after_start (ok u) v = rw (correct_drift_same c seen v fits) refl
      after_start (err e) v = refl

  -- A container that is found and is not running is started as it is: where no inspection that succeeds
  -- shows a difference from its spec, and the answer to the update of its status keeps the spec, the calls
  -- are the update, if there is something new to store, and the start, whether or not the inspection, the
  -- update and the start succeed. So whatever its Secret volumes are, no upload goes before the start.
  pub sync_found-unfilled :
      (cr : DockerContainer) (w : World W)
      → target.state ≢ "running"
      → ((inspected : Inspected)
          → (env.docker.inspect cli target.id w.outside).0 ≡ ok inspected
          → needs_recreate env.libs sort inspected cr.spec ≡ false)
      → ((u : W) (stored : DockerContainer)
          → (env.containers.update_status (noted cr w).container u).0 ≡ ok stored
          → stored.spec ≡ cr.spec)
      → (sync_found env sort cli cr target w).1.trace
        ≡ container_started cli target.id ∷ stores (noted cr w) ++ w.trace
  unfolding sync_found peek ask ◌>>=◌
  sync_found-unfilled cr w down fits law =
      let seen = env.docker.inspect cli target.id w.outside in
      let spec_kept = note_seen-spec target (seen_of seen.0) cr in
      let (stored, v, e, kept, t) =
        store_status-stores (noted cr w) (record w { outside = seen.1 })
          (λ u c a. law u c a ∙ sym spec_kept) in
      let fits_stored = λ (inspected : Inspected) (h : seen_of seen.0 ≡ some inspected).
        ap (needs_recreate env.libs sort inspected) (kept ∙ spec_kept)
        ∙ fits inspected (seen_of-some seen.0 inspected h) in
      rw e (
        start_found stored (seen_of seen.0) v down fits_stored
        ∙ ap (λ calls. container_started cli target.id ∷ calls) t)
