-- ===== src/Tunnel/RoundRobin.antt =====
-- How `handleTCP` spreads connections over the targets and the sessions.
use k8s_docker_operator.Prelude.{
  ℕ, zero, suc, ◌+◌, ◌-◌, ◌%◌, ◌^◌, ◌<◌, ◌≤◌, ◌≡◌, subst, ◌⊎◌, refl, List, [], ◌∷◌, some, length,
  get_elem?, get_elem?-below, arith, inl, inr, ◌∙◌, ap,
}
use native.Mathlib.Nat.{add-zero, mod-lt, mod-eq_of_lt, mod-eq-sub-mod, mod-add-mod}
use native.Mathlib.Decide.{dec_lt}
use k8s_docker_operator.Tunnel.Targets.{Text}
use k8s_docker_operator.Tunnel.Server.{Server, Route, selected, pick, route}

-- The choices for `k` connections in a row.
unfoldable pub routes : ℕ → Server → List Route
routes zero s = []
routes (suc k) s = (route s).0 ∷ routes k (route s).1

-- The choice at a value of the index.
abbrev pub choice : Server → ℕ → Route
choice s i =
    pick (get_elem? s.targets (i % length s.targets)) (get_elem? s.sessions (i % length s.sessions))

pub record CanRoute (s : Server) : Type 0 where
  pub has_session : 0 < length s.sessions
  pub has_target : 0 < length s.targets

route_lem :
    (s : Server)
    → CanRoute s
    → route s ≡ (choice s s.rr_index, record s { rr_index = (s.rr_index + 1) % 2 ^ 64 })
unfolding route
route_lem s h = ground arith

CanRoute-choice :
    (s : Server) (i : ℕ)
    → CanRoute s
    → (target : Text) × (session : ℕ) × (get_elem? s.targets (i % length s.targets) ≡ some target)
      × (get_elem? s.sessions (i % length s.sessions) ≡ some session)
      × (choice s i ≡ selected target session)
CanRoute-choice s i h =
    let (t, et) = get_elem?-below s.targets (i % length s.targets) (omega arith) in
    let (n, en) = get_elem?-below s.sessions (i % length s.sessions) (omega arith) in
    (t, n, et, en, rw (et, en))

-- With a session and a target, and before the index wraps, the i-th of k connections in a row goes to
-- the target and through the session at the index plus i, each modulo the length of its list.
pub routes_nth :
    (k i : ℕ) (s : Server)
    → CanRoute s
    → i < k
    → s.rr_index + k ≤ 2 ^ 64
    → get_elem? (routes k s) i ≡ some (choice s (s.rr_index + i))
unfolding routes
routes_nth zero i s h lt fits = absurd (omega arith)
routes_nth (suc k) zero s h lt fits = rw (route_lem s h, add-zero) refl
routes_nth (suc k) (suc i) s h lt fits =
    let step : (s.rr_index + 1) % 2 ^ 64 ≡ s.rr_index + 1 = omega arith in
    let regroup : s.rr_index + 1 + i ≡ s.rr_index + suc i = omega arith in
    let h' : CanRoute (record s { rr_index = s.rr_index + 1 }) = ground arith in
    rw (route_lem s h, step)
      (routes_nth k i (record s { rr_index = s.rr_index + 1 }) h' (omega arith) (omega arith)
        ∙ ap (λ n. some (choice s n)) regroup)

wrap_lt : (a n : ℕ) → a < n + n → ((a < n) × (a % n ≡ a)) ⊎ ((n ≤ a) × (a % n ≡ a - n))
wrap_lt a n h = elim (dec_lt a n) [
  | yes p ↦ inl (p, mod-eq_of_lt p)
  | no p ↦ inr (omega arith, mod-eq-sub-mod (omega arith) ∙ mod-eq_of_lt (omega arith))
]

residue_at :
    (r n i : ℕ)
    → i < n
    → ((r % n + i < n) × ((r + i) % n ≡ r % n + i))
      ⊎ ((n ≤ r % n + i) × ((r + i) % n ≡ r % n + i - n))
residue_at r n i h =
    rw (← mod-add-mod r n i) (wrap_lt (r % n + i) n (omega (arith, mod-lt r {m = n} (omega arith))))

-- Among `n` numbers in a row one has the residue `j`, and only one.
hit :
    (r n j : ℕ)
    → j < n
    → (i : ℕ) × (i < n) × ((r + i) % n ≡ j) × ((i' : ℕ) → i' < n → (r + i') % n ≡ j → i' ≡ i)
hit r n j h =
    let below = mod-lt r {m = n} (omega arith) in
    elim (dec_lt j (r % n)) [
      | yes p ↦ (
        j + n - r % n,
        omega (arith, below),
        omega (arith, below, residue_at r n (j + n - r % n)),
        λ i' lt e. omega (arith, below, residue_at r n i'),
      )
      | no p ↦ (
        j - r % n,
        omega (arith, below),
        omega (arith, below, residue_at r n (j - r % n)),
        λ i' lt e. omega (arith, below, residue_at r n i'),
      )
    ]

-- With a session and n targets, and before the index wraps, among n connections in a row exactly one is
-- given the target at each position j: the i-th, and no other index has the residue j.
pub routes-each_target :
    (s : Server) (j : ℕ)
    → CanRoute s
    → s.rr_index + length s.targets ≤ 2 ^ 64
    → j < length s.targets
    → (i : ℕ) × (target : Text) × (session : ℕ) × (i < length s.targets)
      × (get_elem? (routes (length s.targets) s) i ≡ some (selected target session))
      × (get_elem? s.targets j ≡ some target)
      × ((i' : ℕ) → i' < length s.targets → (s.rr_index + i') % length s.targets ≡ j → i' ≡ i)
routes-each_target s j h fits lt =
    let (i, below, e, only) = hit s.rr_index (length s.targets) j lt in
    let (target, session, et, en, chosen) = CanRoute-choice s (s.rr_index + i) h in
    (
      i,
      target,
      session,
      below,
      routes_nth (length s.targets) i s h below fits ∙ ap some chosen,
      subst (λ k. get_elem? s.targets k ≡ some target) e et,
      only,
    )
