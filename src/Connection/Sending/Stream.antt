-- ===== src/Connection/Sending/Stream.antt =====
-- The write buffer as the bytes that are still to go out.
use mathlib.Core.Path.{subst}
use mini_rpc.Prelude.{
  ℕ, ◌+◌, ◌-◌, ◌==◌, ◌≤◌, ◌<◌, ◌≡◌, refl, sym, ap, ◌∙◌, ltb, min, List, [], ◌∷◌, ◌++◌, arith,
  length, drop, take, if◌then◌else◌, Bool-cases, inl, inr, append-nil, List-cases, ==_iff, take_all,
  length-take, append_assoc, drop-drop, take-append-drop, length-append, length-drop, some,
}
use mini_rpc.Io.{Bytes, Send, took, refused, eintr, eagain, other, ok, Protobuf}
use mini_rpc.Codec.{is_bad_length, htonl}
use mini_rpc.Codec.Reading.{length-htonl}
use mini_rpc.Proto.{RpcResponse}
use mini_rpc.Frame.{encode_frame}
use mini_rpc.Connection.{Connection, PendingChunk}
use mini_rpc.Connection.Sending.{
  push_frame, queue_response, Flushed, advance, sent_before, flush_writes,
}

-- The unsent bytes, in the order in which they go out.
abbrev pub unsent : List PendingChunk → Bytes
unsent [] = []
unsent (c ∷ cs) = drop c.offset c.bytes ++ unsent cs

-- Every chunk has bytes left.
abbrev pub AllLeft : List PendingChunk → Type 0
AllLeft [] = Unit {0}
AllLeft (c ∷ cs) = (c.offset < length c.bytes) × AllLeft cs

-- `pending_write_bytes_` counts the unsent bytes, and stays within the limit.
pub record IsCounted (c : Connection) : Type 0 where
  pub counted : c.pending_write_bytes ≡ length (unsent c.write_buffer)
  pub left : AllLeft c.write_buffer
  pub bounded : c.pending_write_bytes ≤ c.options.max_write_buffer_bytes

unsent-append : (cs ds : List PendingChunk) → unsent (cs ++ ds) ≡ unsent cs ++ unsent ds
unsent-append [] ds = refl
unsent-append (c ∷ cs) ds =
    ap (◌++◌ (drop c.offset c.bytes)) (unsent-append cs ds)
    ∙ sym (append_assoc (drop c.offset c.bytes) (unsent cs) (unsent ds))

AllLeft-append :
    (cs : List PendingChunk) (d : PendingChunk)
    → AllLeft cs
    → d.offset < length d.bytes
    → AllLeft (cs ++ (d ∷ []))
AllLeft-append [] d a h = (h, tt)
AllLeft-append (c ∷ cs) d a h = (a.0, AllLeft-append cs d a.1 h)

module _ (rc : ℕ) (chunk : PendingChunk) (rest : List PendingChunk)
    (h : rc ≤ length chunk.bytes - chunk.offset) where
  abbrev after_sending : List PendingChunk
  after_sending =
      if chunk.offset + rc == length chunk.bytes
      then rest
      else record chunk { offset = chunk.offset + rc } ∷ rest

  sent-unsent :
      take rc (drop chunk.offset chunk.bytes) ++ unsent after_sending ≡ unsent (chunk ∷ rest)
  sent-unsent =
      let d : Bytes = drop chunk.offset chunk.bytes in
      elim (Bool-cases (chunk.offset + rc == length chunk.bytes)) [
        | inl e ↦ rw e (
            ap (λ x. x ++ unsent rest)
              (take_all rc d (
                omega (
                  arith,
                  (==_iff (chunk.offset + rc) (length chunk.bytes)).0 e,
                  length-drop chunk.offset chunk.bytes,
                ))))
        | inr e ↦ rw e (
            sym (append_assoc (take rc d) (drop (chunk.offset + rc) chunk.bytes) (unsent rest))
            ∙ ap (λ x. (take rc d ++ x) ++ unsent rest)
                (sym (drop-drop rc chunk.offset chunk.bytes))
            ∙ ap (λ x. x ++ unsent rest) (take-append-drop rc d))
      ]

  after_sending-AllLeft : chunk.offset < length chunk.bytes → AllLeft rest → AllLeft after_sending
  after_sending-AllLeft a b = ground arith

  length-after_sending : length (unsent after_sending) + rc ≡ length (unsent (chunk ∷ rest))
  length-after_sending = omega (
    arith,
    ap length sent-unsent,
    length-append (take rc (drop chunk.offset chunk.bytes)) (unsent after_sending),
    length-take rc (drop chunk.offset chunk.bytes),
    length-drop chunk.offset chunk.bytes,
  )

advance-IsCounted :
    (rc : ℕ) (chunk : PendingChunk) (rest : List PendingChunk) (c : Connection)
    → c.write_buffer ≡ chunk ∷ rest
    → IsCounted c
    → rc ≤ length chunk.bytes - chunk.offset
    → IsCounted (advance rc chunk rest c)
unfolding advance
advance-IsCounted rc chunk rest c e v h =
    let a : AllLeft (chunk ∷ rest) = subst AllLeft e v.left in
    record {
      counted =
          omega
            (arith, length-after_sending rc chunk rest h, ap (λ b. length (unsent b)) e, v.counted);
      left = after_sending-AllLeft rc chunk rest h a.0 a.1;
      bounded = omega (arith, v.bounded);
    }

abbrev Kept : Connection → Flushed → Type 0
Kept c f = (f.wire ++ unsent f.conn.write_buffer ≡ unsent c.write_buffer) × IsCounted f.conn

-- What one `send` took, put before what later ones take.
sent_before-Kept :
    (rc : ℕ) (chunk : PendingChunk) (rest : List PendingChunk) (c : Connection) (later : Flushed)
    → c.write_buffer ≡ chunk ∷ rest
    → rc ≤ length chunk.bytes - chunk.offset
    → Kept (advance rc chunk rest c) later
    → Kept c (sent_before (take rc (drop chunk.offset chunk.bytes)) later)
unfolding advance
sent_before-Kept rc chunk rest c later e h k = (
  append_assoc (take rc (drop chunk.offset chunk.bytes)) later.wire (unsent later.conn.write_buffer)
      ∙ ap (◌++◌ (take rc (drop chunk.offset chunk.bytes))) k.0
      ∙ sent-unsent rc chunk rest h
      ∙ sym (ap unsent e),
  k.1,
)

-- On a write buffer that is counted right, whatever the kernel takes, what is on the wire and what
-- is still to go are together what was to go, in that order: nothing is lost, sent twice or
-- reordered; and the count stays right and within the limit.
pub flush_writes_lem :
    (results : List Send) (c : Connection)
    → IsCounted c
    → let f = flush_writes results c in
      (f.wire ++ unsent f.conn.write_buffer ≡ unsent c.write_buffer) × IsCounted f.conn
unfolding flush_writes
flush_writes_lem [] c v = (refl, v)
flush_writes_lem (took n ∷ rs) c v = elim (List-cases c.write_buffer) [
  | inl e ↦ rw (e, flush_writes) (ap unsent e, v)
  | inr (chunk, rest, e) ↦
      let rc : ℕ = min n (length chunk.bytes - chunk.offset) in
      let fits : rc ≤ length chunk.bytes - chunk.offset = omega arith in
      elim (Bool-cases (ltb 0 rc)) [
        | inl some_sent ↦
            let k =
              sent_before-Kept rc chunk rest c (flush_writes rs (advance rc chunk rest c)) e fits (
                flush_writes_lem rs (advance rc chunk rest c)
                  (advance-IsCounted rc chunk rest c e v fits)) in
            rw (e, flush_writes) (rw some_sent (k.0 ∙ ap unsent e, k.1))
        | inr none_sent ↦ rw (e, flush_writes) (rw none_sent (ap unsent e, v))
      ]
]
flush_writes_lem (refused eintr ∷ rs) c v = elim (List-cases c.write_buffer) [
  | inl e ↦ rw (e, flush_writes) (ap unsent e, v)
  | inr (chunk, rest, e) ↦
      let k = flush_writes_lem rs c v in rw (e, flush_writes) (k.0 ∙ ap unsent e, k.1)
]
flush_writes_lem (refused eagain ∷ rs) c v = elim (List-cases c.write_buffer) [
  | inl e ↦ rw (e, flush_writes) (ap unsent e, v)
  | inr (chunk, rest, e) ↦ rw (e, flush_writes) (ap unsent e, v)
]
flush_writes_lem (refused (other s) ∷ rs) c v = elim (List-cases c.write_buffer) [
  | inl e ↦ rw (e, flush_writes) (ap unsent e, v)
  | inr (chunk, rest, e) ↦ rw (e, flush_writes) (ap unsent e, v)
]

push_frame_lem :
    (frame : Bytes) (c : Connection)
    → 0 < length frame
    → IsCounted c
    → (push_frame frame c).0 ≡ ok tt
    → (unsent (push_frame frame c).1.write_buffer ≡ unsent c.write_buffer ++ frame)
      × IsCounted (push_frame frame c).1
unfolding push_frame
push_frame_lem frame c some_bytes v h =
    elim (Bool-cases
      (ltb c.options.max_write_buffer_bytes (c.pending_write_bytes + length frame))) [
        | inl e ↦ absurd (cc (rw e at h))
        | inr e ↦
            let chunk : PendingChunk = record { bytes = frame; offset = 0 } in
            let u : unsent (c.write_buffer ++ (chunk ∷ [])) ≡ unsent c.write_buffer ++ frame =
              unsent-append c.write_buffer (chunk ∷ [])
              ∙ ap (◌++◌ (unsent c.write_buffer)) (append-nil frame) in
            rw e (
              u,
              record {
                counted =
                    omega
                      (arith, v.counted, ap length u, length-append (unsent c.write_buffer) frame);
                left = AllLeft-append c.write_buffer chunk v.left some_bytes;
                bounded = ground (arith, e);
              },
            )
      ]

-- On a write buffer that is counted right, a response that is serialized and queued successfully
-- goes out last, as one frame; and the count stays right and within the limit.
pub queue_response_lem :
    (p : Protobuf RpcResponse) (response : RpcResponse) {body : Bytes} (c : Connection)
    → p.serialize response ≡ some body
    → IsCounted c
    → (queue_response p response c).0 ≡ ok tt
    → let c' = (queue_response p response c).1 in
      (unsent c'.write_buffer ≡ unsent c.write_buffer ++ (htonl (length body) ++ body))
      × IsCounted c'
unfolding queue_response encode_frame
queue_response_lem p response {body} c s v h =
    elim (Bool-cases (is_bad_length (p.byte_size response))) [
      | inl bad ↦ absurd (cc (rw bad at h))
      | inr fine ↦ elim (Bool-cases (is_bad_length (length body))) [
        | inl bad' ↦ absurd (cc (rw (fine, s, bad') at h))
        | inr fine' ↦
            rw (fine, s, fine')
              (push_frame_lem (htonl (length body) ++ body) c
                (omega
                  (arith, length-append (htonl (length body)) body, length-htonl (length body)))
                v (rw (fine, s, fine') at h))
      ]
    ]
