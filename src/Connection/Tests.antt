-- ===== src/Connection/Tests.antt =====
-- A connection that serves two calls and a heartbeat, and the theorems at that input.
use mini_rpc.Prelude.{
  zero, suc, Option, ◌≡◌, ◌≢◌, refl, inl, some, none, List, [], ◌∷◌, ◌++◌, arith, length,
}
use mini_rpc.Io.{Bytes, Recv, got, failed, eintr, eagain, took, refused, ok, waiting, Protobuf}
use mini_rpc.Codec.{htonl, ntohl}
use mini_rpc.Proto.{RpcRequest, RpcResponse}
use mini_rpc.Handler.{handle_one_request, respond}
use mini_rpc.RpcError.{to_int}
use mini_rpc.Registry.{returns, Registry, find, build_key}
use mini_rpc.Frame.{encode_frame, decode_frame_header}
use mini_rpc.Buffer.{make, append, retrieve, copy, compact, ensure_writable, grow, put}
use mini_rpc.Buffer.Contents.{IsValid, contents, make-empty, append_lem}
use mini_rpc.Connection.{Connection, make_connection}
use mini_rpc.Connection.Sending.{queue_response, enqueue_response, flush_writes, push_frame}
use mini_rpc.Connection.Sending.Stream.{IsCounted, unsent, flush_writes_lem}
use mini_rpc.Connection.Receiving.{
  read_from_socket, next_body, serve_body, parse_loop, try_parse_requests, on_readable,
}
use mini_rpc.Connection.Receiving.Frames.{stream, serve_all, try_parse_requests-stream}
use mini_rpc.Connection.Receiving.Progress.{IsSound, try_parse_requests-ends}
use mini_rpc.Connection.Receiving.Socket.{on_readable-IsSound}

-- A request is one byte that names the service; an empty body does not parse.
abbrev decode : Bytes → Option RpcRequest
decode [] = none
decode (zero ∷ bytes) =
    some (record {
      request_id = "0";
      service_name = "__Heartbeat__";
      method_name = "";
      payload = bytes;
    })
decode (suc x ∷ bytes) =
    some (record { request_id = "1"; service_name = "Echo"; method_name = "Say"; payload = bytes })

abbrev requests : Protobuf RpcRequest
requests = record { byte_size = λ r. 1; serialize = λ r. none; parse = decode }

-- A response is its code and then its payload.
abbrev responses : Protobuf RpcResponse
responses = record {
  byte_size = λ r. length (r.error_code ∷ r.payload);
  serialize = λ r. some (r.error_code ∷ r.payload);
  parse = λ b. none;
}

abbrev echo : Registry
echo = ("Echo.Say", λ payload. returns payload) ∷ []

abbrev fresh : Connection
fresh =
    make_connection (record { read_timeout = 30; write_timeout = 30; max_write_buffer_bytes = 64 })

-- A small block, so that runs stay small.
abbrev small : Connection
small = record fresh { read_buffer = make 8 }

small-IsValid : IsValid (make 8)
small-IsValid = (make-empty 8).0

abbrev arrival : List Recv
arrival =
    got (0 ∷ 0 ∷ 0 ∷ 2 ∷ 1 ∷ [])
    ∷ failed eintr
    ∷ got (9 ∷ 0 ∷ 0 ∷ 0 ∷ 1 ∷ 0 ∷ 0 ∷ [])
    ∷ failed eagain
    ∷ []

abbrev after : Connection
unfolding on_readable
after = (on_readable requests responses echo 5 arrival small).1

-- The call is answered, then the heartbeat; the first byte of a third frame stays.
serve_two :
    (unsent after.write_buffer ≡ 0 ∷ 0 ∷ 0 ∷ 2 ∷ 0 ∷ 9 ∷ 0 ∷ 0 ∷ 0 ∷ 1 ∷ 0 ∷ [])
    × (contents after.read_buffer ≡ 0 ∷ [])
    × (after.write_deadline ≡ some 35)
unfolding on_readable read_from_socket serve_body next_body parse_loop decode_frame_header ntohl
    htonl make append retrieve copy compact ensure_writable grow put handle_one_request respond find
    build_key enqueue_response queue_response push_frame encode_frame to_int
serve_two = (refl, refl, refl)

abbrev two_chunks : Connection
two_chunks = record fresh {
  write_buffer =
      record { bytes = 1 ∷ 2 ∷ 3 ∷ []; offset = 1 } ∷ record { bytes = 4 ∷ []; offset = 0 } ∷ [];
  pending_write_bytes = 3;
}

two_chunks-IsCounted : IsCounted two_chunks
two_chunks-IsCounted = record {
  counted = refl;
  left = (omega arith, (omega arith, tt));
  bounded = omega arith;
}

flush_writes_lem_example :
    let f = flush_writes (took 1 ∷ refused eintr ∷ took 1 ∷ refused eagain ∷ []) two_chunks in
    (f.wire ++ unsent f.conn.write_buffer ≡ 2 ∷ 3 ∷ 4 ∷ []) × IsCounted f.conn
flush_writes_lem_example =
    flush_writes_lem (took 1 ∷ refused eintr ∷ took 1 ∷ refused eagain ∷ []) two_chunks
      two_chunks-IsCounted

abbrev plain_response : RpcResponse
plain_response = record { request_id = "1"; error_code = 0; error_msg = ""; payload = 7 ∷ [] }

abbrev loaded : Connection
loaded = record small {
  read_buffer = append (stream ((1 ∷ 9 ∷ []) ∷ (0 ∷ []) ∷ []) (0 ∷ 0 ∷ [])) (make 8);
}

loaded-IsSound : IsSound loaded
loaded-IsSound = record {
  buffer =
      (append_lem (stream ((1 ∷ 9 ∷ []) ∷ (0 ∷ []) ∷ []) (0 ∷ 0 ∷ [])) (make 8) small-IsValid).0;
  counted = record { counted = refl; left = tt; bounded = omega arith };
  numbered = record { numbered = tt; next = refl };
}

try_parse_requests-stream_example :
    let r = try_parse_requests requests responses echo 5 loaded in
    (r ≡ serve_all requests responses echo 5 ((1 ∷ 9 ∷ []) ∷ (0 ∷ []) ∷ []) loaded)
    × (r.0 ≡ ok tt → contents r.1.read_buffer ≡ 0 ∷ 0 ∷ [])
unfolding make append retrieve copy compact ensure_writable grow put htonl
try_parse_requests-stream_example =
    try_parse_requests-stream requests responses echo 5 ((1 ∷ 9 ∷ []) ∷ (0 ∷ []) ∷ []) (0 ∷ 0 ∷ [])
      loaded loaded-IsSound.buffer refl (refl, (refl, tt)) (inl (omega arith))

try_parse_requests-ends_example :
    ((try_parse_requests requests responses echo 5 loaded).0 ≢ waiting)
    × IsSound (try_parse_requests requests responses echo 5 loaded).1
try_parse_requests-ends_example =
    try_parse_requests-ends requests responses echo 5 loaded loaded-IsSound

on_readable-IsSound_example : IsSound (on_readable requests responses echo 5 arrival loaded).1
on_readable-IsSound_example =
    on_readable-IsSound requests responses echo 5 arrival loaded loaded-IsSound
