-- ===== src/Connection/Receiving/Socket.antt =====
-- `ReadFromSocket` and `OnReadable` of server/connection.cpp as a whole.
use mathlib.Core.Path.{subst}
use text.Mathlib.Text.{◌==◌ as str_eq}
use mini_rpc.Prelude.{
  length, arith, ℕ, ◌≡◌, refl, sym, ap, ◌∙◌, inl, inr, Option, none, some, String, List, [], ◌∷◌,
  ◌++◌, append-nil, append_assoc, Bool-cases,
}
use mini_rpc.Io.{
  Bytes, Recv, got, eof, failed, eintr, eagain, other, Outcome, ok, err, waiting, Protobuf,
}
use mini_rpc.Proto.{RpcRequest, RpcResponse}
use mini_rpc.Registry.{Registry}
use mini_rpc.Buffer.{Buffer, append}
use mini_rpc.Buffer.Contents.{IsValid, contents, append_lem}
use mini_rpc.Connection.{Connection, enter_error}
use mini_rpc.Connection.Sending.Stream.{unsent, AllLeft}
use mini_rpc.Connection.Receiving.Sequence.{AreNumbered}
use mini_rpc.Connection.Receiving.Progress.{IsSound, try_parse_requests-ends}
use mini_rpc.Connection.Receiving.{
  ReadResult, data_read, would_block, peer_closed, read_error, read_from_socket, try_parse_requests,
  after_parse, on_readable, after_read,
}

-- What the calls of `::recv` bring until the first that ends the loop.
abbrev pub received : List Recv → Bytes
received [] = []
received (got chunk ∷ rs) = chunk ++ received rs
received (failed eintr ∷ rs) = received rs
received (_ ∷ rs) = []

-- On a valid read buffer, everything that is received until the loop ends is in the buffer behind
-- what was there, in the order of arrival, and the buffer stays valid.
pub read_from_socket_lem :
    (results : List Recv) (b : Buffer)
    → IsValid b
    → let b' = (read_from_socket results b).1 in
      IsValid b' × (contents b' ≡ contents b ++ received results)
unfolding read_from_socket
read_from_socket_lem [] b v = (v, sym (append-nil (contents b)))
read_from_socket_lem (got chunk ∷ rs) b v =
    let (w, added) = append_lem chunk b v in
    let (w', more) = read_from_socket_lem rs (append chunk b) w in
    (w', more ∙ ap (λ x. x ++ received rs) added ∙ append_assoc (contents b) chunk (received rs))
read_from_socket_lem (eof ∷ rs) b v = (v, sym (append-nil (contents b)))
read_from_socket_lem (failed eintr ∷ rs) b v = read_from_socket_lem rs b v
read_from_socket_lem (failed eagain ∷ rs) b v = (v, sym (append-nil (contents b)))
read_from_socket_lem (failed (other s) ∷ rs) b v = (v, sym (append-nil (contents b)))

-- Soundness reads these members only.
pub same-IsSound :
    (c c' : Connection)
    → IsSound c
    → IsValid c'.read_buffer
    → (c.pending_write_bytes ≡ c'.pending_write_bytes) × (c.write_buffer ≡ c'.write_buffer)
    → c.options ≡ c'.options
    → (c.dispatched ≡ c'.dispatched) × (c.next_request_sequence ≡ c'.next_request_sequence)
    → IsSound c'
same-IsSound c c' v b (p, w) o (d, n) = record {
  buffer = b;
  counted = record {
    counted = sym p ∙ v.counted.counted ∙ ap (λ x. length (unsent x)) w;
    left = subst AllLeft w v.counted.left;
    bounded = omega (arith, v.counted.bounded, p, ap (λ x. x.max_write_buffer_bytes) o);
  };
  numbered = record {
    numbered = subst (AreNumbered 0) d v.numbered.numbered;
    next = sym n ∙ v.numbered.next ∙ ap length d;
  };
}

pub enter_error-IsSound : (m : String) (c : Connection) → IsSound c → IsSound (enter_error m c).0
unfolding enter_error
enter_error-IsSound m c v = elim (Bool-cases (str_eq m "")) [
  | inl e ↦ rw e (same-IsSound c _ v v.buffer (refl, refl) refl (refl, refl))
  | inr e ↦ rw e (same-IsSound c _ v v.buffer (refl, refl) refl (refl, refl))
]

module _ (requests : Protobuf RpcRequest) (responses : Protobuf RpcResponse) (registry : Registry)
    (now : ℕ) where
  after_parse-IsSound :
      (r : Outcome (Unit {0}) × Connection)
      → IsSound r.1
      → IsSound (after_parse requests responses registry now r).1
  unfolding after_parse
  after_parse-IsSound (ok u, c) v = same-IsSound c _ v v.buffer (refl, refl) refl (refl, refl)
  after_parse-IsSound (err e, c) v = enter_error-IsSound e c v
  after_parse-IsSound (waiting, c) v = v

  after_read-IsSound :
      (result : Option ReadResult) (c : Connection)
      → IsSound c
      → IsSound (after_read requests responses registry now result c).1
  unfolding after_read
  after_read-IsSound none c v = v
  after_read-IsSound (some peer_closed) c v =
      same-IsSound c _ v v.buffer (refl, refl) refl (refl, refl)
  after_read-IsSound (some (read_error e)) c v = enter_error-IsSound e c v
  after_read-IsSound (some would_block) c v = v
  after_read-IsSound (some data_read) c v =
      after_parse-IsSound (try_parse_requests requests responses registry now c)
        (try_parse_requests-ends requests responses registry now c v).1

  -- A connection that is sound is sound after `OnReadable`, whatever the socket delivers, whatever is
  -- in the frames, and whether it succeeds or fails.
  pub on_readable-IsSound :
      (results : List Recv) (c : Connection)
      → IsSound c
      → IsSound (on_readable requests responses registry now results c).1
  unfolding on_readable
  on_readable-IsSound results c v =
      let read = read_from_socket results c.read_buffer in
      let c' : Connection = record c { read_buffer = read.1 } in
      after_read-IsSound read.0 c' (
        same-IsSound c c' v (read_from_socket_lem results c.read_buffer v.buffer).0 (refl, refl)
          refl (refl, refl))
