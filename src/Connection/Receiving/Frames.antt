-- ===== src/Connection/Receiving/Frames.antt =====
-- What `TryParseRequests` of server/connection.cpp makes of a stream of frames.
use mathlib.Core.Path.{subst}
use mini_rpc.Prelude.{
  ℕ, zero, suc, ◌+◌, ◌-◌, ◌≤◌, ◌<◌, ◌≡◌, refl, sym, ap, ◌∙◌, ◌⊎◌, inl, inr, ltb, none, some, true,
  false, List, [], ◌∷◌, ◌++◌, length, take, drop, arith, Bool-cases, append_assoc, length-append,
  take-append, drop-append_of,
}
use mini_rpc.Io.{Bytes, Outcome, ok, err, waiting, Action, continue, Protobuf}
use mini_rpc.Codec.{htonl, is_bad_length}
use mini_rpc.Codec.Reading.{length-htonl}
use mini_rpc.Proto.{RpcRequest, RpcResponse}
use mini_rpc.Registry.{Registry}
use mini_rpc.Frame.{decode_frame_header}
use mini_rpc.Buffer.{Buffer, readable_bytes, peek, retrieve}
use mini_rpc.Buffer.Contents.{IsValid, contents, take-peek, length-contents, retrieve_lem}
use mini_rpc.Buffer.Memory.{drop-take}
use mini_rpc.Frame.Laws.{decode-encode_frame}
use mini_rpc.Connection.{Connection}
use mini_rpc.Connection.Receiving.Sequence.{serve_body-Served}
use mini_rpc.Connection.Receiving.{next_body, consume, serve_body, parse_loop, try_parse_requests}

-- Frames, and behind them the beginning of one that is not complete.
abbrev pub stream : List Bytes → Bytes → Bytes
stream [] tail = tail
stream (body ∷ bodies) tail = (htonl (length body) ++ body) ++ stream bodies tail

length-stream : (bodies : List Bytes) (tail : Bytes) → length bodies ≤ length (stream bodies tail)
length-stream [] tail = omega arith
length-stream (body ∷ bodies) tail = omega (
  arith,
  length-stream bodies tail,
  length-append (htonl (length body) ++ body) (stream bodies tail),
  length-append (htonl (length body)) body,
  length-htonl (length body),
)

abbrev pub AllFit : List Bytes → Type 0
AllFit [] = Unit {0}
AllFit (body ∷ bodies) = (is_bad_length (length body) ≡ false) × AllFit bodies

abbrev pub IsIncomplete : Bytes → Type 0
IsIncomplete tail =
    (length tail < 4) ⊎ ((n : ℕ) × (decode_frame_header tail ≡ ok n) × (length tail < 4 + n))

-- The header is read from the first four bytes of the contents.
decode-peek :
    (b : Buffer)
    → IsValid b
    → 4 ≤ readable_bytes b
    → decode_frame_header (peek b) ≡ decode_frame_header (contents b)
unfolding decode_frame_header
decode-peek b v h = rw (take-peek 4 b v h) refl

body-peek :
    (n : ℕ) (b : Buffer)
    → IsValid b
    → 4 + n ≤ readable_bytes b
    → take n (drop 4 (peek b)) ≡ take n (drop 4 (contents b))
body-peek n b v h =
    ap (λ k. take k (drop 4 (peek b))) {x = n} {y = 4 + n - 4} (omega arith)
    ∙ sym (drop-take 4 (4 + n) (peek b))
    ∙ ap (drop 4) (take-peek (4 + n) b v h)
    ∙ drop-take 4 (4 + n) (contents b)
    ∙ ap (λ k. take k (drop 4 (contents b))) {x = 4 + n - 4} {y = n} (omega arith)

next_body-frame :
    (b : Buffer) (body rest : Bytes)
    → IsValid b
    → contents b ≡ (htonl (length body) ++ body) ++ rest
    → is_bad_length (length body) ≡ false
    → (next_body b ≡ ok (some body)) × (4 + length body ≤ readable_bytes b)
unfolding next_body
next_body-frame b body rest v e fine =
    let there : 4 + length body ≤ readable_bytes b = omega (
      arith,
      length-contents b v,
      ap length e,
      length-append (htonl (length body) ++ body) rest,
      length-append (htonl (length body)) body,
      length-htonl (length body),
    ) in
    let header : decode_frame_header (peek b) ≡ ok (length body) =
      decode-peek b v (omega (arith, there))
      ∙ ap decode_frame_header e
      ∙ (decode-encode_frame body rest fine).2 in
    let at_body : drop 4 (contents b) ≡ body ++ rest =
      ap (drop 4) (e ∙ append_assoc (htonl (length body)) body rest)
      ∙ drop-append_of 4 (htonl (length body)) (body ++ rest) (sym (length-htonl (length body))) in
    let found : take (length body) (drop 4 (peek b)) ≡ body =
      body-peek (length body) b v there ∙ ap (take (length body)) at_body ∙ take-append body rest in
    let long : ltb (readable_bytes b) 4 ≡ false = ground (arith, there) in
    let whole : ltb (readable_bytes b) (4 + length body) ≡ false = ground (arith, there) in
    (rw (long, header, whole, found) refl, there)

next_body-incomplete : (b : Buffer) → IsValid b → IsIncomplete (contents b) → next_body b ≡ ok none
unfolding next_body
next_body-incomplete b v (inl short) =
    let short' : ltb (readable_bytes b) 4 ≡ true = ground (arith, short, length-contents b v) in
    rw short' refl
next_body-incomplete b v (inr (n, e, short)) = elim (Bool-cases (ltb (readable_bytes b) 4)) [
  | inl short' ↦ rw short' refl
  | inr long ↦
      let header = decode-peek b v (ground (arith, long)) ∙ e in
      let part : ltb (readable_bytes b) (4 + n) ≡ true =
        ground (arith, short, length-contents b v) in
      rw (long, header, part) refl
]

abbrev Parses : Bytes → Outcome (Unit {0}) × Connection → Outcome (Unit {0}) × Connection → Type 0
Parses tail r r' = (r ≡ r') × (r.0 ≡ ok tt → contents r.1.read_buffer ≡ tail)

continue-Parses :
    (tail : Bytes) (r : Outcome (Unit {0}) × Connection)
    {k k' : Connection → Outcome (Unit {0}) × Connection}
    → ((s : Connection) → r.1 ≡ s → Parses tail (k s) (k' s))
    → Parses tail (continue (λ _. k) r) (continue (λ _. k') r)
continue-Parses tail (ok u, s) h = h s refl
continue-Parses tail (err m, s) h = (refl, λ e. cc)
continue-Parses tail (waiting, s) h = (refl, λ e. cc)

module _ (requests : Protobuf RpcRequest) (responses : Protobuf RpcResponse) (registry : Registry)
    (now : ℕ) where
  -- The bodies of the frames, served in order and up to the first that fails.
  pub serve_all : List Bytes → Action Connection (Unit {0})
  serve_all [] c = (ok tt, c)
  serve_all (body ∷ bodies) c =
      continue (λ _ s. serve_all bodies (consume body s))
        (serve_body requests responses registry now body c)

  parse_loop-stream :
      (bodies : List Bytes) (tail : Bytes) (fuel : ℕ) (c : Connection)
      → IsValid c.read_buffer
      → contents c.read_buffer ≡ stream bodies tail
      → AllFit bodies
      → IsIncomplete tail
      → length bodies < fuel
      → Parses tail (parse_loop requests responses registry now fuel c) (serve_all bodies c)
  unfolding parse_loop serve_all
  parse_loop-stream bodies tail zero c v e fit inc h = absurd (omega (arith, h))
  parse_loop-stream [] tail (suc fuel) c v e fit inc h =
      rw (next_body-incomplete c.read_buffer v (subst IsIncomplete (sym e) inc), parse_loop)
        (refl, λ _. e)
  parse_loop-stream (body ∷ bodies) tail (suc fuel) c v e fit inc h =
      let (found, there) = next_body-frame c.read_buffer body (stream bodies tail) v e fit.0 in
      let same = (serve_body-Served requests responses registry now body c).same_buffer in
      let (v', rest) = retrieve_lem (4 + length body) c.read_buffer v there in
      let behind : contents (retrieve (4 + length body) c.read_buffer) ≡ stream bodies tail =
        rest
        ∙ ap (drop (4 + length body)) e
        ∙ drop-append_of (4 + length body) (htonl (length body) ++ body) (stream bodies tail)
            (omega (arith, length-append (htonl (length body)) body, length-htonl (length body))) in
      rw (found, parse_loop)
        (continue-Parses tail (serve_body requests responses registry now body c) (λ s is_s.
          let b = ap (retrieve (4 + length body)) (sym same ∙ ap (λ x. x.read_buffer) is_s) in
          parse_loop-stream bodies tail fuel (consume body s) (subst IsValid b v')
            (ap contents (sym b) ∙ behind) fit.1 inc (omega (arith, h))))

  -- Where the read buffer holds whole frames and the beginning of one more, however they arrived,
  -- `TryParseRequests` serves the frames' bodies in order, up to the first that fails; and when it
  -- succeeds, that beginning is what is left in the buffer.
  pub try_parse_requests-stream :
      (bodies : List Bytes) (tail : Bytes) (c : Connection)
      → IsValid c.read_buffer
      → contents c.read_buffer ≡ stream bodies tail
      → AllFit bodies
      → IsIncomplete tail
      → let r = try_parse_requests requests responses registry now c in
        (r ≡ serve_all bodies c) × (r.0 ≡ ok tt → contents r.1.read_buffer ≡ tail)
  unfolding try_parse_requests
  try_parse_requests-stream bodies tail c v e fit inc =
      parse_loop-stream bodies tail (suc (readable_bytes c.read_buffer)) c v e fit inc
        (omega (arith, length-stream bodies tail, ap length e, length-contents c.read_buffer v))
