-- ===== src/Tunnel/Conn.antt =====
-- `WebSocketConn` of internal/tunnel/conn.go: a stream of bytes over a WebSocket. The messages that are
-- still to come, in order, end where the connection fails. `grab` is how many bytes the reader of a
-- message gives for a buffer of a size when some are left.
use k8s_docker_operator.Prelude.{
  ℕ, zero, suc, ◌≡◌, refl, ap, ◌∙◌, List, [], ◌∷◌, ◌++◌, Option, none, some, length, take, drop,
  append_assoc, arith,
}
use k8s_docker_operator.Exec.{given}

pub record WebSocketConn : Type 0 where
  pub messages : List (List ℕ)
  pub reader : Option (List ℕ)
  pub written : List (List ℕ)

module _ (grab : ℕ → List ℕ → ℕ) where
  abbrev give : ℕ → List ℕ → WebSocketConn → Option (List ℕ) × WebSocketConn
  give size left c =
      (some (take (grab size left) left), record c { reader = some (drop (grab size left) left) })

  -- `NextReader`, and the same again where the message has come to its end.
  unfoldable pub read_next : ℕ → List (List ℕ) → WebSocketConn → Option (List ℕ) × WebSocketConn
  read_next size [] c = (none, record c { messages = []; reader = none })
  read_next size ([] ∷ messages) c = read_next size messages c
  read_next size ((b ∷ bs) ∷ messages) c = give size (b ∷ bs) (record c { messages = messages })

  unfoldable pub read_left : ℕ → Option (List ℕ) → WebSocketConn → Option (List ℕ) × WebSocketConn
  read_left size none c = read_next size c.messages c
  read_left size (some []) c = read_next size c.messages c
  read_left size (some (b ∷ bs)) c = give size (b ∷ bs) c

  -- `Read` into a buffer of a size: the bytes read, or `none` for an error.
  unfoldable pub read : ℕ → WebSocketConn → Option (List ℕ) × WebSocketConn
  read size c = read_left size c.reader c

-- `Write`: one binary message.
unfoldable pub write : List ℕ → WebSocketConn → ℕ × WebSocketConn
write bytes c = (length bytes, record c { written = c.written ++ bytes ∷ [] })

abbrev pub concat : List (List ℕ) → List ℕ
concat [] = []
concat (m ∷ ms) = m ++ concat ms

-- What is still to be read.
abbrev pub unread : WebSocketConn → List ℕ
unread c = given c.reader (λ left. left) [] ++ concat c.messages

take-drop : (n : ℕ) (xs : List ℕ) → xs ≡ take n xs ++ drop n xs
take-drop zero xs = refl
take-drop (suc n) [] = refl
take-drop (suc n) (x ∷ xs) = ap (λ l. x ∷ l) (take-drop n xs)

module _ (grab : ℕ → List ℕ → ℕ) where
  -- The bytes that come out of a connection, and those that stay in it.
  abbrev pub Continues : List ℕ → Option (List ℕ) × WebSocketConn → Type 0
  Continues before r =
      (before ≡ given r.0 (λ bytes. bytes) [] ++ unread r.1) × (r.0 ≡ none → before ≡ [])

  give-Continues :
      (size : ℕ) (left : List ℕ) (c : WebSocketConn)
      → Continues (left ++ concat c.messages) (give grab size left c)
  unfolding given
  give-Continues size left c = (
    ap (λ l. l ++ concat c.messages) (take-drop (grab size left) left)
        ∙ append_assoc (take (grab size left) left) (drop (grab size left) left)
            (concat c.messages),
    λ h. absurd (ground arith),
  )

  read_next-Continues :
      (size : ℕ) (messages : List (List ℕ)) (c : WebSocketConn)
      → Continues (concat messages) (read_next grab size messages c)
  unfolding read_next given
  read_next-Continues size [] c = (refl, λ _. refl)
  read_next-Continues size ([] ∷ messages) c = read_next-Continues size messages c
  read_next-Continues size ((b ∷ bs) ∷ messages) c =
      give-Continues size (b ∷ bs) (record c { messages = messages })

  read_left-Continues :
      (size : ℕ) (left : Option (List ℕ)) (c : WebSocketConn)
      → Continues (given left (λ l. l) [] ++ concat c.messages) (read_left grab size left c)
  unfolding read_left given
  read_left-Continues size none c = read_next-Continues size c.messages c
  read_left-Continues size (some []) c = read_next-Continues size c.messages c
  read_left-Continues size (some (b ∷ bs)) c = give-Continues size (b ∷ bs) c

  -- However the bytes are spread over messages and however many a read gives, what a read returns
  -- with what is then still unread is what was unread before it; an error means that nothing was left.
  pub read-Continues : (size : ℕ) (c : WebSocketConn) → Continues (unread c) (read grab size c)
  unfolding read
  read-Continues size c = read_left-Continues size c.reader c
