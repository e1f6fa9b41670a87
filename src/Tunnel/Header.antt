-- ===== src/Tunnel/Header.antt =====
-- The header of a stream: what the server writes and the client reads.
use k8s_docker_operator.Prelude.{
  ℕ, ◌+◌, ◌<◌, ◌≤◌, ◌≡◌, ◌≢◌, refl, sym, ap, ◌∙◌, List, [], ◌∷◌, ◌++◌, append_assoc, append-nil,
  All, length, length-append, arith, true, Bool, if◌then◌else◌,
}
use native.Mathlib.Decide.{dec_le}
use k8s_docker_operator.Tunnel.Server.{Server, selected, piped, newline, route, handle_tcp}
use k8s_docker_operator.Tunnel.Client.{
  too_long, target, encode_byte, read_header, dial_failed, joined, long_header, dial, handle_stream,
}

-- The bytes of a text, each encoded as the client does.
unfoldable pub encoded : List ℕ → List ℕ
encoded [] = []
encoded (b ∷ bs) = encode_byte b ++ encoded bs

read_header-encoded :
    (addr t rest : List ℕ)
    → All (λ b. b ≢ newline) t
    → length addr + length (encoded t) ≤ 256
    → read_header addr (t ++ newline ∷ rest) ≡ target (addr ++ encoded t) rest
unfolding read_header encoded
read_header-encoded addr [] rest h fits = rw append-nil refl
read_header-encoded addr (b ∷ bs) rest h fits = ground (
  arith,
  length-append {0} addr (encode_byte b),
  length-append {0} (encode_byte b) (encoded bs),
  append_assoc addr (encode_byte b) (encoded bs),
  read_header-encoded (addr ++ encode_byte b) bs rest,
)

read_header-too_long :
    (addr t rest : List ℕ)
    → All (λ b. b ≢ newline) t
    → length addr ≤ 256
    → 256 < length addr + length (encoded t)
    → read_header addr (t ++ newline ∷ rest) ≡ too_long
unfolding read_header encoded
read_header-too_long addr [] rest h fits long = absurd (omega arith)
read_header-too_long addr (b ∷ bs) rest h fits long = ground (
  arith,
  length-append {0} addr (encode_byte b),
  length-append {0} (encode_byte b) (encoded bs),
  read_header-too_long (addr ++ encode_byte b) bs rest,
)

encoded-ascii : (t : List ℕ) → All (λ b. b < 128) t → encoded t ≡ t
unfolding encoded encode_byte
encoded-ascii [] h = refl
encoded-ascii (b ∷ bs) h = ground (arith, encoded-ascii bs)

piped-bytes :
    (s s' : Server) (session : ℕ) (t bytes : List ℕ)
    → route s ≡ (selected t session, s')
    → handle_tcp true true s ≡ (piped session bytes, s')
    → bytes ≡ t ++ newline ∷ []
unfolding handle_tcp
piped-bytes s s' session t bytes routed handled = ground arith

-- With an ASCII target that has no newline, a client reads from a stream on which `handleTCP` wrote its
-- header exactly that target, and leaves the rest of the stream, if the target has at most 256 bytes; it
-- gives the stream up if the target is longer.
read_header-handle_tcp :
    (s s' : Server) (session : ℕ) (t bytes rest : List ℕ)
    → route s ≡ (selected t session, s')
    → handle_tcp true true s ≡ (piped session bytes, s')
    → All (λ b. b ≢ newline) t
    → All (λ b. b < 128) t
    → (length t ≤ 256 → read_header [] (bytes ++ rest) ≡ target t rest)
      × (256 < length t → read_header [] (bytes ++ rest) ≡ too_long)
read_header-handle_tcp s s' session t bytes rest routed handled lines ascii =
    let wrote = piped-bytes s s' session t bytes routed handled in
    let same = encoded-ascii t ascii in
    let whole : bytes ++ rest ≡ t ++ newline ∷ rest =
      rw wrote (append_assoc t (newline ∷ []) rest) in
    (
      λ short. rw whole (
          read_header-encoded [] t rest lines (omega (arith, ap (λ (u : List ℕ). length u) same))
          ∙ rw same refl),
      λ long. rw whole (
          read_header-too_long [] t rest lines (omega arith)
            (omega (arith, ap (λ (u : List ℕ). length u) same))),
    )

-- A stream on which `handleTCP` wrote its header, for an ASCII target of at most 256 bytes without a newline:
-- the client dials exactly this target, and if it is reached, all that follows the header is passed on. For
-- a longer target nothing is dialed.
pub handle_stream-handle_tcp :
    (dials : List ℕ → Bool) (s s' : Server) (session : ℕ) (t bytes rest : List ℕ)
    → route s ≡ (selected t session, s')
    → handle_tcp true true s ≡ (piped session bytes, s')
    → All (λ b. b ≢ newline) t
    → All (λ b. b < 128) t
    → (length t ≤ 256
        → handle_stream dials (bytes ++ rest) ≡ (if dials t then joined t rest else dial_failed t))
      × (256 < length t → handle_stream dials (bytes ++ rest) ≡ long_header)
unfolding handle_stream
handle_stream-handle_tcp dials s s' session t bytes rest routed handled lines ascii =
    let read = read_header-handle_tcp s s' session t bytes rest routed handled lines ascii in
    (λ short. ap (dial dials) (read.0 short), λ long. ap (dial dials) (read.1 long))

length-encoded : (t : List ℕ) → length t ≤ length (encoded t)
unfolding encoded encode_byte
length-encoded [] = omega arith
length-encoded (b ∷ bs) = ground (arith, length-encoded bs)

length-encoded_high :
    (front back : List ℕ) (b : ℕ)
    → 128 ≤ b
    → length (front ++ b ∷ back) < length (encoded (front ++ b ∷ back))
unfolding encoded encode_byte
length-encoded_high [] back b h = ground (arith, length-encoded back)
length-encoded_high (c ∷ front) back b h = ground (arith, length-encoded_high front back b)

target_injective : (a b r : List ℕ) → target a r ≡ target b r → a ≡ b
target_injective a b r e = cc

-- A target without a newline that has a byte above 127 is never read back: the client reads another
-- address, or none.
pub read_header-not_ascii :
    (front back rest : List ℕ) (b : ℕ)
    → 128 ≤ b
    → All (λ c. c ≢ newline) (front ++ b ∷ back)
    → read_header [] ((front ++ b ∷ back) ++ newline ∷ rest) ≢ target (front ++ b ∷ back) rest
read_header-not_ascii front back rest b high lines e =
    let t = front ++ b ∷ back in
    let longer = length-encoded_high front back b high in
    elim (dec_le (length (encoded t)) 256) [
      | yes fits ↦
          let same =
            target_injective (encoded t) t rest
              (sym (read_header-encoded [] t rest lines (omega arith)) ∙ e) in
          absurd (omega (arith, longer, ap (λ (u : List ℕ). length u) same))
      | no long ↦
          let r = sym (read_header-too_long [] t rest lines (omega arith) (omega arith)) ∙ e in cc r
    ]
