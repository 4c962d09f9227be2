-- ===== src/Frame.antt =====
-- `EncodeFrame` and `DecodeFrameHeader` of server/connection.cpp: the server's side of the framing.
pub mod Laws
mod Tests
use mini_rpc.Prelude.{ℕ, ◌++◌, ◌==◌, ◌||◌, ltb, length, take, if◌then◌else◌}
use mini_rpc.Io.{Bytes, Outcome, ok, err}
use mini_rpc.Codec.{htonl, ntohl, frame_header_bytes, max_frame_size, is_bad_length}

-- The null checks of the output pointers are left out: both callers pass the address of a local.
unfoldable pub encode_frame : Bytes → Outcome Bytes
encode_frame body =
    if is_bad_length (length body)
    then err "invalid frame body size"
    else ok (htonl (length body) ++ body)

-- `data` is the memory from the header on.
unfoldable pub decode_frame_header : Bytes → Outcome ℕ
decode_frame_header bytes =
    let parsed = ntohl (take frame_header_bytes bytes) in
    if is_bad_length parsed then err "invalid request frame length" else ok parsed
