-- ===== src/Session/Io.antt =====
-- When the event handlers of server/connection.cpp return, and that they keep a connection sound.
use mathlib.Core.Path.{subst}
use mini_rpc.Buffer.Contents.{IsValid}
use mini_rpc.Connection.Receiving.Sequence.{AreNumbered}
use mini_rpc.Prelude.{
  ℕ, ◌-◌, min, ltb, ◌≡◌, ◌≢◌, refl, sym, ap, ◌∙◌, inl, inr, Option, none, some, Bool, true, false,
  List, [], ◌∷◌, length, Bool-cases, List-cases,
}
use mini_rpc.Io.{
  Recv, got, eof, failed, Send, took, refused, eintr, eagain, other, Outcome, ok, err, waiting,
  Protobuf,
}
use mini_rpc.Proto.{RpcRequest, RpcResponse}
use mini_rpc.Registry.{Registry}
use mini_rpc.Buffer.{Buffer}
use mini_rpc.Connection.{Connection, has_pending_write}
use mini_rpc.Connection.Sending.{advance, flush_writes, after_flush, on_writable}
use mini_rpc.Connection.Sending.Stream.{flush_writes_lem}
use mini_rpc.Connection.Receiving.Progress.{IsSound, try_parse_requests-ends}
use mini_rpc.Connection.Receiving.Socket.{same-IsSound, enter_error-IsSound, read_from_socket_lem}
use mini_rpc.Connection.Receiving.{
  ReadResult, data_read, would_block, peer_closed, read_error, read_from_socket, try_parse_requests,
  after_parse, after_read, on_readable,
}

-- The results contain one that ends the loop of `ReadFromSocket`: the peer's end, or an error other
-- than an interruption. A socket that does not block always gives one.
abbrev pub ends_reading : List Recv → Bool
ends_reading [] = false
ends_reading (got chunk ∷ rs) = ends_reading rs
ends_reading (eof ∷ rs) = true
ends_reading (failed eintr ∷ rs) = ends_reading rs
ends_reading (failed _ ∷ rs) = true

-- The same of the loop of `FlushWrites`.
abbrev pub ends_writing : List Send → Bool
ends_writing [] = false
ends_writing (took n ∷ rs) = ends_writing rs
ends_writing (refused eintr ∷ rs) = ends_writing rs
ends_writing (refused _ ∷ rs) = true

read_from_socket-ends :
    (rs : List Recv) (b : Buffer) → ends_reading rs ≡ true → (read_from_socket rs b).0 ≢ none
unfolding read_from_socket
read_from_socket-ends [] b h = absurd cc
read_from_socket-ends (got chunk ∷ rs) b h = read_from_socket-ends rs _ h
read_from_socket-ends (eof ∷ rs) b h = λ e. cc
read_from_socket-ends (failed eintr ∷ rs) b h = read_from_socket-ends rs b h
read_from_socket-ends (failed eagain ∷ rs) b h = λ e. cc
read_from_socket-ends (failed (other s) ∷ rs) b h = λ e. cc

flush_writes-ends :
    (rs : List Send) (c : Connection)
    → ends_writing rs ≡ true
    → (flush_writes rs c).outcome ≢ waiting
unfolding flush_writes
flush_writes-ends [] c h = absurd cc
flush_writes-ends (took n ∷ rs) c h = elim (List-cases c.write_buffer) [
  | inl e ↦ simp (e, flush_writes) (λ x. cc)
  | inr (chunk, rest, e) ↦
      let rc : ℕ = min n (length chunk.bytes - chunk.offset) in
      elim (Bool-cases (ltb 0 rc)) [
        | inl s ↦ simp (e, flush_writes, s) (flush_writes-ends rs (advance rc chunk rest c) h)
        | inr s ↦ simp (e, flush_writes, s) (λ x. cc)
      ]
]
flush_writes-ends (refused eintr ∷ rs) c h = elim (List-cases c.write_buffer) [
  | inl e ↦ simp (e, flush_writes) (λ x. cc)
  | inr (chunk, rest, e) ↦ simp (e, flush_writes) (flush_writes-ends rs c h)
]
flush_writes-ends (refused eagain ∷ rs) c h = elim (List-cases c.write_buffer) [
  | inl e ↦ simp (e, flush_writes) (λ x. cc)
  | inr (chunk, rest, e) ↦ simp (e, flush_writes) (λ x. cc)
]
flush_writes-ends (refused (other s) ∷ rs) c h = elim (List-cases c.write_buffer) [
  | inl e ↦ simp (e, flush_writes) (λ x. cc)
  | inr (chunk, rest, e) ↦ simp (e, flush_writes) (λ x. cc)
]

after_flush-ends :
    (now : ℕ) (o : Outcome (Unit {0})) (c : Connection)
    → o ≢ waiting
    → (after_flush now o c).0 ≢ waiting
unfolding after_flush
after_flush-ends now (ok u) c h = elim (Bool-cases (has_pending_write c)) [
  | inl e ↦ simp e (λ x. cc)
  | inr e ↦ simp e (λ x. cc)
]
after_flush-ends now (err e) c h = λ x. cc
after_flush-ends now waiting c h = absurd (h refl)

pub on_writable-ends :
    (now : ℕ) (rs : List Send) (c : Connection)
    → ends_writing rs ≡ true
    → (on_writable now rs c).0 ≢ waiting
unfolding on_writable
on_writable-ends now rs c h = after_flush-ends now _ _ (flush_writes-ends rs c h)

-- What sending leaves alone.
abbrev Apart : Connection → Connection → Type 0
Apart c d =
    (c.read_buffer ≡ d.read_buffer)
    × ((c.dispatched ≡ d.dispatched) × (c.next_request_sequence ≡ d.next_request_sequence))

flush_writes-Apart : (rs : List Send) (c : Connection) → Apart c (flush_writes rs c).conn
unfolding flush_writes advance
flush_writes-Apart [] c = (refl, (refl, refl))
flush_writes-Apart (took n ∷ rs) c = elim (List-cases c.write_buffer) [
  | inl e ↦ simp (e, flush_writes) (refl, (refl, refl))
  | inr (chunk, rest, e) ↦
      let rc : ℕ = min n (length chunk.bytes - chunk.offset) in
      elim (Bool-cases (ltb 0 rc)) [
        | inl s ↦ simp (e, flush_writes, s) (flush_writes-Apart rs (advance rc chunk rest c))
        | inr s ↦ simp (e, flush_writes, s) (refl, (refl, refl))
      ]
]
flush_writes-Apart (refused eintr ∷ rs) c = elim (List-cases c.write_buffer) [
  | inl e ↦ simp (e, flush_writes) (refl, (refl, refl))
  | inr (chunk, rest, e) ↦ simp (e, flush_writes) (flush_writes-Apart rs c)
]
flush_writes-Apart (refused eagain ∷ rs) c = elim (List-cases c.write_buffer) [
  | inl e ↦ simp (e, flush_writes) (refl, (refl, refl))
  | inr (chunk, rest, e) ↦ simp (e, flush_writes) (refl, (refl, refl))
]
flush_writes-Apart (refused (other s) ∷ rs) c = elim (List-cases c.write_buffer) [
  | inl e ↦ simp (e, flush_writes) (refl, (refl, refl))
  | inr (chunk, rest, e) ↦ simp (e, flush_writes) (refl, (refl, refl))
]

flush_writes-IsSound :
    (rs : List Send) (c : Connection) → IsSound c → IsSound (flush_writes rs c).conn
flush_writes-IsSound rs c v =
    let (b, (d, n)) = flush_writes-Apart rs c in
    record {
      buffer = subst IsValid b v.buffer;
      counted = (flush_writes_lem rs c v.counted).1;
      numbered = record {
        numbered = subst (AreNumbered 0) d v.numbered.numbered;
        next = sym n ∙ v.numbered.next ∙ ap length d;
      };
    }

after_flush-IsSound :
    (now : ℕ) (o : Outcome (Unit {0})) (c : Connection)
    → IsSound c
    → IsSound (after_flush now o c).1
unfolding after_flush
after_flush-IsSound now (ok u) c v = elim (Bool-cases (has_pending_write c)) [
  | inl e ↦ simp e (same-IsSound c _ v v.buffer (refl, refl) refl (refl, refl))
  | inr e ↦ simp e (same-IsSound c _ v v.buffer (refl, refl) refl (refl, refl))
]
after_flush-IsSound now (err e) c v = enter_error-IsSound e c v
after_flush-IsSound now waiting c v = v

pub on_writable-IsSound :
    (now : ℕ) (rs : List Send) (c : Connection) → IsSound c → IsSound (on_writable now rs c).1
unfolding on_writable
on_writable-IsSound now rs c v =
    let f = flush_writes rs c in
    after_flush-IsSound now f.outcome f.conn (flush_writes-IsSound rs c v)

module _ (requests : Protobuf RpcRequest) (responses : Protobuf RpcResponse) (registry : Registry)
    (now : ℕ) where
  after_parse-ends :
      (r : Outcome (Unit {0}) × Connection)
      → r.0 ≢ waiting
      → (after_parse requests responses registry now r).0 ≢ waiting
  unfolding after_parse
  after_parse-ends (ok u, c) h = λ e. cc
  after_parse-ends (err m, c) h = λ e. cc
  after_parse-ends (waiting, c) h = absurd (h refl)

  after_read-ends :
      (r : Option ReadResult) (c : Connection)
      → r ≢ none
      → IsSound c
      → (after_read requests responses registry now r c).0 ≢ waiting
  unfolding after_read
  after_read-ends none c h v = absurd (h refl)
  after_read-ends (some peer_closed) c h v = λ e. cc
  after_read-ends (some (read_error m)) c h v = λ e. cc
  after_read-ends (some would_block) c h v = λ e. cc
  after_read-ends (some data_read) c h v =
      after_parse-ends (try_parse_requests requests responses registry now c)
        (try_parse_requests-ends requests responses registry now c v).0

  pub on_readable-ends :
      (rs : List Recv) (c : Connection)
      → ends_reading rs ≡ true
      → IsSound c
      → (on_readable requests responses registry now rs c).0 ≢ waiting
  unfolding on_readable
  on_readable-ends rs c h v =
      let read = read_from_socket rs c.read_buffer in
      let c' : Connection = record c { read_buffer = read.1 } in
      after_read-ends read.0 c' (read_from_socket-ends rs c.read_buffer h) (
        same-IsSound c c' v (read_from_socket_lem rs c.read_buffer v.buffer).0 (refl, refl) refl
          (refl, refl))
