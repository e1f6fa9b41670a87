-- ===== src/ServiceController/Push.antt =====
-- The way of the targets from the controller, which joins them, to the tunnel server, which parses them.
use k8s_docker_operator.Prelude.{
  ◌≡◌, refl, ap, ◌∙◌, String, Option, none, some, List, [], ◌∷◌, ◌++◌, map, true, false, All, arith,
}
use k8s_docker_operator.Prelude.Int.{ℤ}
use k8s_docker_operator.Prelude.Text.{◌<>◌, codes, codes-append, split, trim_space}
use k8s_docker_operator.Tunnel.Targets.{
  NoComma, Text, comma, is_empty, clean, parse_targets, targets_equal_iff,
}
use k8s_docker_operator.Tunnel.Server.{
  Server, handle_reload, recent_push, load_targets_from_file, file_targets,
}
use k8s_docker_operator.ServiceController.Targets.{join_comma}

split_none : (t : Text) → NoComma t → split comma t ≡ t ∷ []
unfolding split
split_none [] h = refl
split_none (c ∷ t) h = rw (h.0, split_none t h.1) refl

split-comma : (t u : Text) → NoComma t → split comma (t ++ comma ∷ u) ≡ t ∷ split comma u
unfolding split
split-comma [] u h = refl
split-comma (c ∷ t) u h = rw (h.0, split-comma t u h.1) refl

-- A target that the server reads as it was sent.
abbrev pub IsSound : String → Type 0
IsSound x = NoComma (codes x) × (trim_space (codes x) ≡ codes x) × (is_empty (codes x) ≡ false)

split-join :
    (x : String) (xs : List String)
    → All IsSound (x ∷ xs)
    → split comma (codes (join_comma (x ∷ xs))) ≡ codes x ∷ map codes xs
unfolding join_comma
split-join x [] h = split_none (codes x) h.0.0
split-join x (y ∷ ys) h =
    ap (split comma) (
      codes-append x ("," <> join_comma (y ∷ ys))
      ∙ ap (λ l. codes x ++ l) (codes-append "," (join_comma (y ∷ ys))))
    ∙ split-comma (codes x) (codes (join_comma (y ∷ ys))) h.0.0
    ∙ ap (λ l. codes x ∷ l) (split-join y ys h.1)

clean_sound : (xs : List String) → All IsSound xs → clean (map codes xs) ≡ map codes xs
unfolding clean
clean_sound [] h = refl
clean_sound (x ∷ xs) h = rw (h.0.1, h.0.2, clean_sound xs h.1) refl

parse-join :
    (x : String) (xs : List String)
    → All IsSound (x ∷ xs)
    → parse_targets (codes (join_comma (x ∷ xs))) ≡ map codes (x ∷ xs)
unfolding parse_targets
parse-join x xs h = ap clean (split-join x xs h) ∙ clean_sound (x ∷ xs) h

is_empty-append : (t u : Text) → is_empty t ≡ false → is_empty (t ++ u) ≡ false
is_empty-append [] u h = absurd (ground arith)
is_empty-append (c ∷ t) u h = refl

is_empty-join :
    (x : String) (xs : List String)
    → is_empty (codes x) ≡ false
    → is_empty (codes (join_comma (x ∷ xs))) ≡ false
unfolding join_comma
is_empty-join x [] h = h
is_empty-join x (y ∷ ys) h =
    ap is_empty (codes-append x ("," <> join_comma (y ∷ ys)))
    ∙ is_empty-append (codes x) (codes ("," <> join_comma (y ∷ ys))) h

-- A push of one or more targets, none of which has a comma, is empty or has white space at an end, is
-- answered with 200 and leaves the server with exactly these targets, in their order.
pub handle_reload-join :
    (x : String) (xs : List String) (now : ℤ) (file : Option Text) (s : Server)
    → All IsSound (x ∷ xs)
    → ((handle_reload true (codes (join_comma (x ∷ xs))) now file s).0 ≡ 200)
      × ((handle_reload true (codes (join_comma (x ∷ xs))) now file s).1.targets
          ≡ map codes (x ∷ xs))
unfolding handle_reload
handle_reload-join x xs now file s h = rw (is_empty-join x xs h.0.2, parse-join x xs h) (refl, refl)

-- A push of no targets, while an earlier push is recent and its targets are in force, leaves them in
-- force, whatever the targets file says.
pub handle_reload-empty :
    (now : ℤ) (file : Option Text) (s : Server)
    → recent_push now s ≡ true
    → s.targets ≡ s.push_targets
    → (handle_reload true (codes (join_comma [])) now file s).1.targets ≡ s.targets
unfolding handle_reload join_comma load_targets_from_file
handle_reload-empty now none s recent held = refl
handle_reload-empty now (some content) s recent held =
    rw recent (ground (arith, targets_equal_iff (file_targets content) s.push_targets))
