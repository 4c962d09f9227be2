-- ===== src/Connection/Sending.antt =====
-- The sending half of server/connection.cpp: `QueueResponse`, `EnqueueResponse`, `FlushWrites` and
-- `OnWritable`.
pub mod Stream
pub mod Queueing
use Prim.Native.String.{◌++◌ as str_append}
use mini_rpc.Prelude.{
  ℕ, zero, suc, ◌+◌, ◌-◌, ◌==◌, ltb, min, Bool, true, false, not, List, [], ◌∷◌, ◌++◌, length, drop,
  take, if◌then◌else◌,
}
use mini_rpc.Io.{
  Bytes, Send, took, refused, Errno, eintr, eagain, other, strerror, Outcome, ok, err, waiting,
  Action, ◌>>=◌, ◌>>◌, return, fail, or_fail, refuse_if, Protobuf,
}
use mini_rpc.Codec.{is_bad_length}
use mini_rpc.Proto.{RpcResponse}
use mini_rpc.Frame.{encode_frame}
use mini_rpc.Connection.{
  Connection, PendingChunk, opened, has_pending_write, is_empty, arm_write_deadline,
  clear_write_deadline, enter_error,
}

-- A result that changes nothing, as an action.
abbrev pub lift : {S A : Type 0} → Outcome A → Action S A
lift o s = (o, s)

-- The backpressure check and the `push_back`.
unfoldable pub push_frame : Bytes → Action Connection (Unit {0})
push_frame frame c =
    if ltb c.options.max_write_buffer_bytes (c.pending_write_bytes + length frame)
    then (err "write buffer backpressure limit exceeded", c)
    else (
      ok tt,
      record c {
        pending_write_bytes = c.pending_write_bytes + length frame;
        write_buffer = c.write_buffer ++ (record { bytes = frame; offset = 0 } ∷ []);
      },
    )

module _ (p : Protobuf RpcResponse) where
  unfoldable pub queue_response : RpcResponse → Action Connection (Unit {0})
  unfolding push_frame
  queue_response response = do
    refuse_if (is_bad_length (p.byte_size response)) "invalid response frame size"
    body ← or_fail (p.serialize response) "failed to serialize RpcResponse"
    frame ← lift (encode_frame body)
    push_frame frame

  -- `now` is the time that `ArmWriteDeadline` reads.
  unfoldable pub enqueue_response : ℕ → RpcResponse → Action Connection (Unit {0})
  unfolding queue_response
  enqueue_response now response = do queue_response response; λ c. (ok tt, arm_write_deadline now c)

-- What the loop of `FlushWrites` has done: how it ended, the connection, and what the kernel took.
pub record Flushed : Type 0 where
  pub outcome : Outcome (Unit {0})
  pub conn : Connection
  pub wire : Bytes

-- After a `send` that took `rc` bytes of the front chunk.
unfoldable pub advance : ℕ → PendingChunk → List PendingChunk → Connection → Connection
advance rc chunk rest c = record c {
  pending_write_bytes = c.pending_write_bytes - rc;
  write_buffer =
      if chunk.offset + rc == length chunk.bytes
      then rest
      else record chunk { offset = chunk.offset + rc } ∷ rest;
}

abbrev pub sent_before : Bytes → Flushed → Flushed
sent_before bytes f = record f { wire = bytes ++ f.wire }

-- `FlushWrites`, over the results of `::send`. The kernel takes at most what it is offered, so a
-- result `took n` for `remaining` bytes is `rc = min n remaining`. After `rc == 0`, which is an
-- error too, `errno` is stale; its text is left out.
unfoldable pub flush_writes : List Send → Connection → Flushed
unfolding advance
flush_writes [] c = record {
  outcome = if has_pending_write c then waiting else ok tt;
  conn = c;
  wire = [];
}
flush_writes (r ∷ rs) c = elim c.write_buffer [
  | [] ↦ record { outcome = ok tt; conn = c; wire = [] }
  | chunk ∷ rest ↦ elim r [
    | took n ↦
        let rc = min n (length chunk.bytes - chunk.offset) in
        let later = flush_writes rs (advance rc chunk rest c) in
        if ltb 0 rc
        then sent_before (take rc (drop chunk.offset chunk.bytes)) later
        else record { outcome = err "send failed: "; conn = c; wire = [] }
    | refused eintr ↦ flush_writes rs c
    | refused eagain ↦ record { outcome = ok tt; conn = c; wire = [] }
    | refused (other s) ↦ record {
      outcome = err (str_append "send failed: " s);
      conn = c;
      wire = [];
    }
  ]
]

-- What `OnWritable` does with the outcome of `FlushWrites`; with it the handles that it resumes.
unfoldable pub after_flush :
    ℕ → Outcome (Unit {0}) → Connection → Outcome (Unit {0}) × Connection × List ℕ
after_flush now (ok u) c =
    if not (has_pending_write c)
    then (ok tt, record (clear_write_deadline c) { state = opened }, [])
    else (ok tt, arm_write_deadline now c, [])
after_flush now (err e) c = let (c', woken) = enter_error e c in (err e, c', woken)
after_flush now waiting c = (waiting, c, [])

unfoldable pub on_writable : ℕ → List Send → Connection → Outcome (Unit {0}) × Connection × List ℕ
unfolding after_flush
on_writable now results c = let f = flush_writes results c in after_flush now f.outcome f.conn
