-- ===== src/Connection/Receiving.antt =====
-- The receiving half of server/connection.cpp: `ReadFromSocket`, `TryParseRequests`, `OnReadable`
-- and the loop of `Serve`.
pub mod Frames
pub mod Progress
pub mod Sequence
pub mod Socket
use Prim.Native.String.{◌++◌ as str_append}
use text.Mathlib.Text.{◌==◌ as str_eq}
use mini_rpc.Prelude.{
  ℕ, zero, suc, ◌+◌, ◌==◌, ltb, String, Option, none, some, not, Bool, true, false, List, [], ◌∷◌,
  ◌++◌, length, take, drop, if◌then◌else◌,
}
use mini_rpc.Io.{
  Bytes, Recv, got, eof, failed, Send, eintr, eagain, other, strerror, Outcome, ok, err, waiting,
  Action, continue, Protobuf,
}
use mini_rpc.Codec.{frame_header_bytes}
use mini_rpc.RpcError.{ErrorCode, to_int, parse_error}
use mini_rpc.Proto.{RpcRequest, RpcResponse}
use mini_rpc.Registry.{Registry}
use mini_rpc.Handler.{handle_one_request}
use mini_rpc.Frame.{decode_frame_header}
use mini_rpc.Buffer.{Buffer, readable_bytes, peek, retrieve, append}
use mini_rpc.Connection.{
  Connection, DispatchRequest, closing, opened, enter_error, has_pending_write,
}
use mini_rpc.Connection.Sending.{enqueue_response, on_writable}

-- `ReadResult`
pub data ReadResult : Type 0 where
  data_read would_block peer_closed : ReadResult
  read_error : String → ReadResult

-- `ReadFromSocket`, over the results of `::recv`; none when they run out first.
unfoldable pub read_from_socket : List Recv → Buffer → Option ReadResult × Buffer
read_from_socket [] b = (none, b)
read_from_socket (got chunk ∷ rs) b = read_from_socket rs (append chunk b)
read_from_socket (eof ∷ rs) b = (some peer_closed, b)
read_from_socket (failed eintr ∷ rs) b = read_from_socket rs b
read_from_socket (failed eagain ∷ rs) b =
    (some (if readable_bytes b == 0 then would_block else data_read), b)
read_from_socket (failed (other s) ∷ rs) b = (some (read_error (str_append "recv failed: " s)), b)

abbrev pub heartbeat_service_name : String
heartbeat_service_name = "__Heartbeat__"

abbrev pub parse_failure : RpcResponse
parse_failure = record {
  request_id = "";
  error_code = to_int parse_error;
  error_msg = "failed to parse RpcRequest";
  payload = [];
}

abbrev pub heartbeat_response : RpcRequest → RpcResponse
heartbeat_response request = record {
  request_id = request.request_id;
  error_code = to_int ErrorCode.ok;
  error_msg = "";
  payload = [];
}

abbrev pub dispatch_request : ℕ → RpcRequest → DispatchRequest
dispatch_request sequence request = record {
  sequence = sequence;
  request_id = request.request_id;
  service_name = request.service_name;
  method_name = request.method_name;
  payload = request.payload;
}

-- What becomes of the dispatcher's answer.
abbrev pub dispatch_result : Option String → Outcome (Unit {0})
dispatch_result none = ok tt
dispatch_result (some e) = err (if str_eq e "" then "failed to dispatch request" else e)

-- The call of `request_dispatcher_`, with the next sequence number.
unfoldable pub dispatch :
    (DispatchRequest → Option String) → RpcRequest → Action Connection (Unit {0})
dispatch dispatcher request c =
    let d = dispatch_request (suc c.next_request_sequence) request in
    (
      dispatch_result (dispatcher d),
      record c {
        next_request_sequence = suc c.next_request_sequence;
        dispatched = c.dispatched ++ (d ∷ []);
      },
    )

-- The head of the loop of `TryParseRequests`: the body of the next frame; none for the `break` and
-- for the end of the loop.
unfoldable pub next_body : Buffer → Outcome (Option Bytes)
next_body b =
    if ltb (readable_bytes b) frame_header_bytes
    then ok none
    else elim (decode_frame_header (peek b)) [
      | ok body_length ↦
          if ltb (readable_bytes b) (frame_header_bytes + body_length)
          then ok none
          else ok (some (take body_length (drop frame_header_bytes (peek b))))
      | err e ↦ err e
      | waiting ↦ waiting
    ]

-- `read_buffer_.retrieve(kFrameHeaderBytes + body_length)`
abbrev pub consume : Bytes → Connection → Connection
consume body c = record c {
  read_buffer = retrieve (frame_header_bytes + length body) c.read_buffer;
}

module _ (requests : Protobuf RpcRequest) (responses : Protobuf RpcResponse) (registry : Registry)
    (now : ℕ) where
  -- `if (request_dispatcher_)` and its `else`.
  unfoldable pub answer :
      Option (DispatchRequest → Option String) → RpcRequest → Action Connection (Unit {0})
  unfolding dispatch
  answer (some dispatcher) request c = dispatch dispatcher request c
  answer none request c = enqueue_response responses now (handle_one_request registry request) c

  -- What is done with a request, up to the `retrieve`.
  unfoldable pub serve_request : RpcRequest → Action Connection (Unit {0})
  unfolding answer
  serve_request request c =
      if str_eq request.service_name heartbeat_service_name
      then enqueue_response responses now (heartbeat_response request) c
      else answer c.request_dispatcher request c

  unfoldable pub serve_body : Bytes → Action Connection (Unit {0})
  unfolding serve_request
  serve_body body c = elim (requests.parse body) [
    | none ↦ enqueue_response responses now parse_failure c
    | some request ↦ serve_request request c
  ]

  -- The loop of `TryParseRequests`.
  unfoldable pub parse_loop : ℕ → Action Connection (Unit {0})
  unfolding serve_body next_body
  parse_loop zero c = (waiting, c)
  parse_loop (suc fuel) c = elim (next_body c.read_buffer) [
    | ok (some body) ↦ continue (λ _ s. parse_loop fuel (consume body s)) (serve_body body c)
    | ok none ↦ (ok tt, c)
    | err e ↦ (err e, c)
    | waiting ↦ (waiting, c)
  ]

  -- Each round takes at least five bytes, so the bytes that are there are fuel enough.
  unfoldable pub try_parse_requests : Action Connection (Unit {0})
  unfolding parse_loop
  try_parse_requests c = parse_loop (suc (readable_bytes c.read_buffer)) c

  -- What `OnReadable` does after `TryParseRequests`.
  unfoldable pub after_parse :
      Outcome (Unit {0}) × Connection → Outcome (Unit {0}) × Connection × List ℕ
  after_parse (ok u, c) = (ok tt, record c { state = opened }, [])
  after_parse (err e, c) = let (c', woken) = enter_error e c in (err e, c', woken)
  after_parse (waiting, c) = (waiting, c, [])

  -- What it does after `ReadFromSocket`.
  unfoldable pub after_read :
      Option ReadResult → Connection → Outcome (Unit {0}) × Connection × List ℕ
  unfolding try_parse_requests after_parse
  after_read none c = (waiting, c, [])
  after_read (some peer_closed) c = (ok tt, record c { state = closing; should_close = true }, [])
  after_read (some (read_error e)) c = let (c', woken) = enter_error e c in (err e, c', woken)
  after_read (some would_block) c = (ok tt, c, [])
  after_read (some data_read) c = after_parse (try_parse_requests c)

  unfoldable pub on_readable : List Recv → Connection → Outcome (Unit {0}) × Connection × List ℕ
  unfolding after_read
  on_readable results c =
      let (result, buffer) = read_from_socket results c.read_buffer in
      after_read result (record c { read_buffer = buffer })

  -- The loop of `Serve`, over what the two calls of each round see of the socket.
  pub serve : List (List Recv × List Send) → Connection → Outcome (Unit {0}) × Connection
  unfolding on_readable
  serve [] c = (waiting, c)
  serve ((recvs, sends) ∷ rounds) c =
      let (read, c', woken) = on_readable recvs c in
      elim read [
        | err e ↦ (err (str_append "connection read failed: " e), c')
        | waiting ↦ (waiting, c')
        | ok u ↦
            if c'.should_close
            then (ok tt, c')
            else if not (has_pending_write c')
            then serve rounds c'
            else (let (written, c'', woken') = on_writable now sends c' in
                elim written [
                  | ok u' ↦ serve rounds c''
                  | err e ↦ (err (str_append "connection write failed: " e), c'')
                  | waiting ↦ (waiting, c'')
                ])
      ]
