-- ===== src/Tunnel/Targets.antt =====
-- Lists of targets as text: the parsing that `handleReload` and `loadTargetsFromFile` share
-- (internal/tunnel/server.go), and `targetsEqual`.
use k8s_docker_operator.Prelude.{
  ℕ, Bool, true, false, List, [], ◌∷◌, ◌&&◌, ◌==◌, ◌≡◌, ◌↔◌, All, arith, if◌then◌else◌,
}
use k8s_docker_operator.Prelude.Text.{trim_space, split}

abbrev pub Text : Type 0
Text = List ℕ

abbrev pub comma : ℕ
comma = b','

-- A text without the comma.
abbrev pub NoComma : Text → Type 0
NoComma t = All (λ c. (c == comma) ≡ false) t

abbrev pub is_empty : Text → Bool
is_empty [] = true
is_empty (c ∷ s) = false

unfoldable pub text_eq : Text → Text → Bool
text_eq [] [] = true
text_eq [] (d ∷ t) = false
text_eq (c ∷ s) [] = false
text_eq (c ∷ s) (d ∷ t) = c == d && text_eq s t

-- `for _, t := range rawList { if tVal := strings.TrimSpace(t); tVal != "" { append } }`
unfoldable pub clean : List Text → List Text
clean [] = []
clean (t ∷ ts) =
    let rest = clean ts in if is_empty (trim_space t) then rest else trim_space t ∷ rest

unfoldable pub parse_targets : Text → List Text
parse_targets text = clean (split comma text)

-- The comparison of lengths, then of the entries at each index.
unfoldable pub targets_equal : List Text → List Text → Bool
targets_equal [] [] = true
targets_equal [] (b ∷ ys) = false
targets_equal (a ∷ xs) [] = false
targets_equal (a ∷ xs) (b ∷ ys) = text_eq a b && targets_equal xs ys

pub text_eq_iff : (s t : Text) → (text_eq s t ≡ true) ↔ (s ≡ t)
unfolding text_eq
text_eq_iff [] [] = ground arith
text_eq_iff [] (d ∷ t) = ground arith
text_eq_iff (c ∷ s) [] = ground arith
text_eq_iff (c ∷ s) (d ∷ t) = ground (arith, text_eq_iff s t)

pub targets_equal_iff : (xs ys : List Text) → (targets_equal xs ys ≡ true) ↔ (xs ≡ ys)
unfolding targets_equal
targets_equal_iff [] [] = ground arith
targets_equal_iff [] (b ∷ ys) = ground arith
targets_equal_iff (a ∷ xs) [] = ground arith
targets_equal_iff (a ∷ xs) (b ∷ ys) = ground (arith, text_eq_iff a b, targets_equal_iff xs ys)
