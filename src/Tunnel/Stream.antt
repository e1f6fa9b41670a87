-- ===== src/Tunnel/Stream.antt =====
-- A WebSocket as a stream: the pieces that one end writes, and the reads of the other until one fails.
use k8s_docker_operator.Prelude.{
  ℕ, zero, suc, ◌≤◌, ◌<◌, ◌≡◌, refl, sym, ap, ◌∙◌, List, [], ◌∷◌, ◌++◌, Option, none, some, length,
  take, append_assoc, length-append, append-nil, arith,
}
use k8s_docker_operator.Exec.{given}
use k8s_docker_operator.Tunnel.Conn.{
  WebSocketConn, read_next, read_left, read, write, concat, unread, read-Continues,
}

-- The pieces, written one after the other.
abbrev pub writes : List (List ℕ) → WebSocketConn → WebSocketConn
writes [] c = c
writes (bytes ∷ pieces) c = writes pieces (write bytes c).1

-- What a read returned, before the rest.
abbrev next_bytes : Option (List ℕ) → Option (List ℕ) → Option (List ℕ)
next_bytes none rest = some []
next_bytes (some bytes) rest = given rest (λ more. some (bytes ++ more)) none

next_bytes-whole :
    (o rest : Option (List ℕ)) (before after : List ℕ)
    → before ≡ given o (λ bytes. bytes) [] ++ after
    → (o ≡ none → before ≡ [])
    → ((bytes : List ℕ) → o ≡ some bytes → rest ≡ some after)
    → next_bytes o rest ≡ some before
unfolding given
next_bytes-whole none rest before after split ended more = ap some (sym (ended refl))
next_bytes-whole (some bytes) rest before after split ended more =
    rw (more bytes refl) (ap some (sym split))

writes-written :
    (pieces : List (List ℕ)) (c : WebSocketConn) → (writes pieces c).written ≡ c.written ++ pieces
unfolding write
writes-written [] c = sym (append-nil c.written)
writes-written (bytes ∷ pieces) c =
    writes-written pieces (write bytes c).1 ∙ append_assoc c.written (bytes ∷ []) pieces

module _ (grab : ℕ → List ℕ → ℕ) where
  -- Reads into buffers of one size until a read fails; `none` when the fuel does not last.
  unfoldable pub drain : ℕ → ℕ → WebSocketConn → Option (List ℕ)
  drain zero size c = none
  drain (suc fuel) size c = let (o, c') = read grab size c in next_bytes o (drain fuel size c')

  module _ (size : ℕ) (gives : (b : ℕ) (bs : List ℕ) → 1 ≤ grab size (b ∷ bs)) where
    -- A read that returns gives a byte at least.
    abbrev Gives : Option (List ℕ) × WebSocketConn → Type 0
    Gives r = (bytes : List ℕ) → r.0 ≡ some bytes → 1 ≤ length bytes

    take-Gives : (n b : ℕ) (bs : List ℕ) → 1 ≤ n → 1 ≤ length (take n (b ∷ bs))
    take-Gives zero b bs h = h
    take-Gives (suc n) b bs h = omega arith

    read_next-Gives :
        (messages : List (List ℕ)) (c : WebSocketConn) → Gives (read_next grab size messages c)
    unfolding read_next
    read_next-Gives [] c = λ bytes h. absurd (ground arith)
    read_next-Gives ([] ∷ messages) c = read_next-Gives messages c
    read_next-Gives ((b ∷ bs) ∷ messages) c =
        λ bytes h. ground (arith, take-Gives (grab size (b ∷ bs)) b bs (gives b bs))

    read_left-Gives :
        (left : Option (List ℕ)) (c : WebSocketConn) → Gives (read_left grab size left c)
    unfolding read_left
    read_left-Gives none c = read_next-Gives c.messages c
    read_left-Gives (some []) c = read_next-Gives c.messages c
    read_left-Gives (some (b ∷ bs)) c =
        λ bytes h. ground (arith, take-Gives (grab size (b ∷ bs)) b bs (gives b bs))

    read-Gives : (c : WebSocketConn) → Gives (read grab size c)
    unfolding read
    read-Gives c = read_left-Gives c.reader c

    drain-unread :
        (fuel : ℕ) (c : WebSocketConn)
        → length (unread c) < fuel
        → drain fuel size c ≡ some (unread c)
    unfolding drain given
    drain-unread zero c enough = absurd (omega (arith, enough))
    drain-unread (suc fuel) c enough =
        let r = read grab size c in
        let parts = read-Continues grab size c in
        next_bytes-whole r.0 (drain fuel size r.1) (unread c) (unread r.1) parts.0 parts.1
          (λ bytes e. drain-unread fuel r.1 (
            omega (
              arith,
              enough,
              read-Gives c bytes e,
              ap length parts.0
                  ∙ ap (λ o. length (given o (λ l. l) [] ++ unread r.1)) e
                  ∙ length-append bytes (unread r.1),
            )))

  -- What one end writes, in whatever pieces, the other end reads whole and in order, into buffers of any
  -- size of which every read fills a byte at least: more reads than there are bytes come to the end.
  pub drain-writes :
      (size fuel : ℕ) (pieces : List (List ℕ)) (writer reader : WebSocketConn)
      → ((b : ℕ) (bs : List ℕ) → 1 ≤ grab size (b ∷ bs))
      → writer.written ≡ []
      → reader.reader ≡ none
      → reader.messages ≡ (writes pieces writer).written
      → length (concat pieces) < fuel
      → drain fuel size reader ≡ some (concat pieces)
  unfolding given
  drain-writes size fuel pieces writer reader gives none_yet idle sent enough =
      let all_unread : unread reader ≡ concat pieces =
        ap (λ o. given o (λ left. left) [] ++ concat reader.messages) idle
        ∙ ap concat (sent ∙ writes-written pieces writer ∙ ap (λ l. l ++ pieces) none_yet) in
      drain-unread size gives fuel reader (rw all_unread enough) ∙ ap some all_unread
