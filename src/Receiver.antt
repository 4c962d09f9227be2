-- ===== src/Receiver.antt =====
-- `HandleReadableFrames` of client/rpc_client.cpp: the client's side of the framing. It serves the
-- complete response frames that the read buffer holds, and leaves the rest of the bytes there.
pub mod Laws
pub mod Chunks
pub mod Served
pub mod Waiting
mod Tests
use mini_rpc.Prelude.{
  ℕ, zero, suc, ◌+◌, String, Option, none, some, Bool, true, false, List, [], ◌∷◌, ◌++◌, ltb,
  length, take, drop, starts_with, if◌then◌else◌,
}
use mini_rpc.Io.{Bytes, Protobuf}
use mini_rpc.Codec.{ntohl, frame_header_bytes, is_bad_length}
use mini_rpc.RpcError.{
  Status, RpcCallResult, internal_error, parse_error, failure, from_proto_error_code,
}
use mini_rpc.Proto.{RpcResponse}
use mini_rpc.Pending.{Slots, Effect, complete, fail_all}

-- What the bytes from `offset` on begin with.
pub data Head : Type 0 where
  incomplete bad_length unparsed : Head
  frame : RpcResponse → ℕ → Head

abbrev pub parsed : Option RpcResponse → ℕ → Head
parsed none n = unparsed
parsed (some m) n = frame m n

-- The loop's result: how far `offset` came, whether to go on, and the table.
pub record Pass : Type 0 where
  pub kept : Bool
  pub offset : ℕ
  pub slots : Slots
  pub effects : List Effect

abbrev pub prepend_pass : ℕ → List Effect → Pass → Pass
prepend_pass n es pass = record pass { offset = n + pass.offset; effects = es ++ pass.effects }

abbrev pub idle_pass : Slots → Pass
idle_pass slots = record { kept = true; offset = 0; slots = slots; effects = [] }

abbrev pub stop_pass : Slots × List Effect → Pass
stop_pass (slots, es) = record { kept = false; offset = 0; slots = slots; effects = es }

pub mapped_result : RpcResponse → RpcCallResult
mapped_result m = record {
  status = record { code = from_proto_error_code m.error_code; message = m.error_msg };
  response_payload = m.payload;
}

-- A response with an unknown id, or to a heartbeat, is logged only.
pub serve_response : RpcResponse → Slots → Slots × List Effect
serve_response m slots =
    if starts_with "hb_" m.request_id
    then (slots, [])
    else let (found, slots', es) = complete m.request_id (mapped_result m) slots in (slots', es)

abbrev pub bad_frame_length : RpcCallResult
unfolding failure
bad_frame_length = failure internal_error "invalid response frame length"

abbrev pub bad_response : RpcCallResult
unfolding failure
bad_response = failure parse_error "failed to parse RpcResponse"

module _ (p : Protobuf RpcResponse) where
  pub next_frame : Bytes → Head
  next_frame bytes =
      let body_length = ntohl (take frame_header_bytes bytes) in
      if ltb (length bytes) frame_header_bytes
      then incomplete
      else if is_bad_length body_length
      then bad_length
      else if ltb (length bytes) (frame_header_bytes + body_length)
      then incomplete
      else parsed (p.parse (take body_length (drop frame_header_bytes bytes)))
          (frame_header_bytes + body_length)

  -- The loop, on the bytes from `offset` on. Every round consumes a frame, so their number is fuel
  -- enough.
  pub frames_loop : ℕ → Bytes → Slots → Pass
  frames_loop zero bytes slots = idle_pass slots
  frames_loop (suc fuel) bytes slots = elim (next_frame bytes) [
    | incomplete ↦ idle_pass slots
    | bad_length ↦ stop_pass (fail_all bad_frame_length slots)
    | unparsed ↦ stop_pass (fail_all bad_response slots)
    | frame m n ↦
        let (slots', es) = serve_response m slots in
        prepend_pass n es (frames_loop fuel (drop n bytes) slots')
  ]

  pub serve_frames : Bytes → Slots → Pass
  unfolding frames_loop
  serve_frames bytes slots = frames_loop (length bytes) bytes slots

-- The dispatcher's read buffer and `last_activity_time_`.
pub record Reader : Type 0 where
  pub read_buffer : Bytes
  pub last_activity : ℕ

-- The buffer is shortened and the time set if a frame was consumed; on a `return false` the buffer
-- stays as it is.
abbrev pub after_frames : ℕ → Reader → Pass → Bool × Reader × Slots × List Effect
after_frames now r pass =
    if pass.kept
    then (
      true,
      if ltb 0 pass.offset
          then record { read_buffer = drop pass.offset r.read_buffer; last_activity = now }
          else r,
      pass.slots,
      pass.effects,
    )
    else (false, r, pass.slots, pass.effects)

unfoldable pub handle_readable_frames :
    Protobuf RpcResponse → ℕ → Reader → Slots → Bool × Reader × Slots × List Effect
unfolding serve_frames
handle_readable_frames p now r slots = after_frames now r (serve_frames p r.read_buffer slots)
