-- ===== src/Connection/Receiving/Progress.antt =====
-- The loops of the receiving half of server/connection.cpp end, and keep the connection sound.
use mathlib.Core.Path.{subst}
use mini_rpc.Prelude.{
  ℕ, zero, suc, ◌+◌, ◌≤◌, ◌<◌, ◌≡◌, ◌≢◌, ◌⊎◌, String, refl, sym, ap, ◌∙◌, inl, inr, ltb, none, some,
  length, take, drop, arith, Bool-cases, length-take, length-drop,
}
use mini_rpc.Io.{Bytes, Outcome, ok, err, waiting, continue, Protobuf}
use mini_rpc.Codec.{is_bad_length, ntohl}
use mini_rpc.Proto.{RpcRequest, RpcResponse}
use mini_rpc.Registry.{Registry}
use mini_rpc.Frame.{decode_frame_header}
use mini_rpc.Buffer.{Buffer, readable_bytes, peek, retrieve}
use mini_rpc.Buffer.Contents.{IsValid, contents, length-contents, retrieve_lem}
use mini_rpc.Connection.{Connection}
use mini_rpc.Connection.Sending.Stream.{IsCounted}
use mini_rpc.Connection.Receiving.Sequence.{IsNumbered, serve_body-Served}
use mini_rpc.Connection.Receiving.{next_body, consume, serve_body, parse_loop, try_parse_requests}

-- The read buffer's cursors are in order, the write buffer is counted and within its limit, and the
-- dispatched requests are numbered from 1.
pub record IsSound (c : Connection) : Type 0 where
  pub buffer : IsValid c.read_buffer
  pub counted : IsCounted c
  pub numbered : IsNumbered c

abbrev IsFound : Buffer → Bytes → Type 0
IsFound b body =
    (next_body b ≡ ok (some body)) × (0 < length body) × (4 + length body ≤ readable_bytes b)

-- No frame, a refusal, or a body that is not empty and is in the buffer behind its header.
next_body-cases :
    (b : Buffer)
    → IsValid b
    → (next_body b ≡ ok none)
      ⊎ (((e : String) × (next_body b ≡ err e)) ⊎ ((body : Bytes) × IsFound b body))
unfolding next_body decode_frame_header
next_body-cases b v = elim (Bool-cases (ltb (readable_bytes b) 4)) [
  | inl short ↦ inl (rw short refl)
  | inr long ↦
      let n : ℕ = ntohl (take 4 (peek b)) in
      elim (Bool-cases (is_bad_length n)) [
        | inl bad ↦ inr (inl ("invalid request frame length", rw (long, bad) refl))
        | inr fine ↦ elim (Bool-cases (ltb (readable_bytes b) (4 + n))) [
          | inl part ↦ inl (rw (long, fine) (rw part refl))
          | inr whole ↦
              let body : Bytes = take n (drop 4 (peek b)) in
              let size : length body ≡ n = ground (
                arith,
                whole,
                v.ordered,
                v.inside,
                length-take n (drop 4 (peek b)),
                length-drop 4 (peek b),
                length-drop b.read_index b.storage,
              ) in
              inr (
                inr (
                  body,
                  (
                    rw (long, fine) (rw whole refl),
                    ground (arith, fine, size),
                    ground (arith, whole, size),
                  ),
                ))
        ]
      ]
]

consume-IsSound :
    (body : Bytes) (c : Connection)
    → IsSound c
    → 4 + length body ≤ readable_bytes c.read_buffer
    → IsSound (consume body c)
      × (readable_bytes (consume body c).read_buffer + (4 + length body)
          ≡ readable_bytes c.read_buffer)
consume-IsSound body c v fits =
    let (v', rest) = retrieve_lem (4 + length body) c.read_buffer v.buffer fits in
    (
      record {
        buffer = v';
        counted = record {
          counted = v.counted.counted;
          left = v.counted.left;
          bounded = v.counted.bounded;
        };
        numbered = record { numbered = v.numbered.numbered; next = v.numbered.next };
      },
      omega (
        arith,
        length-contents (retrieve (4 + length body) c.read_buffer) v',
        ap length rest,
        length-drop (4 + length body) (contents c.read_buffer),
        length-contents c.read_buffer v.buffer,
      ),
    )

module _ (requests : Protobuf RpcRequest) (responses : Protobuf RpcResponse) (registry : Registry)
    (now : ℕ) where
  abbrev Lasts : Outcome (Unit {0}) × Connection → Type 0
  Lasts r = (r.0 ≢ waiting) × IsSound r.1

  continue-Lasts :
      (r : Outcome (Unit {0}) × Connection) {k : Connection → Outcome (Unit {0}) × Connection}
      → Lasts r
      → ((s : Connection) → r.1 ≡ s → Lasts (k s))
      → Lasts (continue (λ _. k) r)
  continue-Lasts (ok u, s) a h = h s refl
  continue-Lasts (err m, s) a h = (λ e. cc, a.1)
  continue-Lasts (waiting, s) a h = absurd (a.0 refl)

  parse_loop-Lasts :
      (fuel : ℕ) (c : Connection)
      → IsSound c
      → readable_bytes c.read_buffer < fuel
      → Lasts (parse_loop requests responses registry now fuel c)
  unfolding parse_loop
  parse_loop-Lasts zero c v h = absurd (omega (arith, h))
  parse_loop-Lasts (suc fuel) c v h = elim (next_body-cases c.read_buffer v.buffer) [
    | inl e ↦ rw (e, parse_loop) (λ x. cc, v)
    | inr (inl (m, e)) ↦ rw (e, parse_loop) (λ x. cc, v)
    | inr (inr (body, (e, some_bytes, fits))) ↦
        let served = serve_body-Served requests responses registry now body c in
        let r = serve_body requests responses registry now body c in
        let sound : IsSound r.1 = record {
          buffer = subst IsValid (sym served.same_buffer) v.buffer;
          counted = served.counted v.counted;
          numbered = served.numbered v.numbered;
        } in
        rw (e, parse_loop)
          (continue-Lasts r (served.ends, sound)
            (λ s is_s.
              let same = sym (ap (λ x. x.read_buffer) is_s) ∙ served.same_buffer in
              let (w, less) =
                consume-IsSound body s (subst IsSound is_s sound)
                  (subst (λ b. 4 + length body ≤ readable_bytes b) (sym same) fits) in
              parse_loop-Lasts fuel (consume body s) w
                (omega (arith, less, h, ap readable_bytes same, some_bytes))))
  ]

  -- On a sound connection the loop of `TryParseRequests` ends, whatever bytes have come and whatever
  -- the dispatcher and the handlers do; and the connection stays sound, on success and on failure.
  pub try_parse_requests-ends :
      (c : Connection)
      → IsSound c
      → ((try_parse_requests requests responses registry now c).0 ≢ waiting)
        × IsSound (try_parse_requests requests responses registry now c).1
  unfolding try_parse_requests
  try_parse_requests-ends c v =
      parse_loop-Lasts (suc (readable_bytes c.read_buffer)) c v (omega arith)
