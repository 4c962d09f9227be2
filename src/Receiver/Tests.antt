-- ===== src/Receiver/Tests.antt =====
-- Responses to the call "7" on the wire, and the theorems at concrete inputs.
use text.Mathlib.Text.{◌==◌ as str_eq}
use mini_rpc.Prelude.{
  ◌+◌, ◌≡◌, refl, true, false, ◌⊎◌, Option, none, some, [], ◌∷◌, ◌++◌, ◌==◌, ◌&&◌, arith, length,
  if◌then◌else◌, eq_iff,
}
use mini_rpc.Io.{Bytes, Protobuf, IsLawful}
use mini_rpc.Codec.{htonl, ntohl}
use mini_rpc.Frame.{encode_frame}
use mini_rpc.Proto.{RpcResponse}
use mini_rpc.Pending.{Slots, set_value, fresh_slot, complete}
use mini_rpc.Pending.Invariant.{IsValid}
use mini_rpc.Receiver.{
  incomplete, Reader, mapped_result, next_frame, serve_frames, frames_loop, serve_response,
  handle_readable_frames,
}
use mini_rpc.Receiver.Chunks.{served_in_pieces}
use mini_rpc.Receiver.Served.{serve_all, Encodes, served_in_order}

abbrev pub response : Bytes → RpcResponse
response payload = record { request_id = "7"; error_code = 0; error_msg = ""; payload = payload }

abbrev of_seven : RpcResponse → Option Bytes
of_seven m =
    if str_eq m.request_id "7" && (m.error_code == 0 && str_eq m.error_msg "")
    then some (7 ∷ m.payload)
    else none

abbrev read_seven : Bytes → Option RpcResponse
read_seven [] = none
read_seven (tag ∷ payload) = if tag == 7 then some (response payload) else none

-- A message type that has only the successful responses to the call "7".
abbrev sevens : Protobuf RpcResponse
sevens = record { byte_size = λ m. 1 + length m.payload; serialize = of_seven; parse = read_seven }

of_seven-size :
    (m : RpcResponse) (b : Bytes) → of_seven m ≡ some b → length b ≡ 1 + length m.payload
of_seven-size m b e = ground arith

of_seven-read : (m : RpcResponse) (b : Bytes) → of_seven m ≡ some b → read_seven b ≡ some m
of_seven-read m b e = ground (arith, eq_iff m.request_id "7", eq_iff m.error_msg "")

sevens-IsLawful : IsLawful sevens
sevens-IsLawful = record { size = of_seven-size; read_back = of_seven-read }

abbrev awaited : Slots
awaited =
    ("7", record fresh_slot { async_promise = some 5; async_bound = true; deadline = 100 }) ∷ []

awaited-IsValid : IsValid awaited
awaited-IsValid = record {
  unique = (refl, tt);
  sound = (
    refl,
    record {
      one_mode = λ h. refl;
      handle_there = refl;
      promise_bound = λ h. refl;
      promise_there = λ h k. refl;
      no_promise = λ h. cc;
      no_handle = λ h. cc;
    },
    tt,
  );
}

abbrev one_frame : Bytes
one_frame = 0 ∷ 0 ∷ 0 ∷ 2 ∷ 7 ∷ 9 ∷ []

abbrev reader : Bytes → Reader
reader bytes = record { read_buffer = bytes; last_activity = 1 }

serves_a_response : handle_readable_frames sevens 20 (reader (one_frame ++ (0 ∷ []))) awaited ≡ (
  true,
  record { read_buffer = 0 ∷ []; last_activity = 20 },
  [],
  set_value 5 (mapped_result (response (9 ∷ []))) ∷ [],
)
unfolding handle_readable_frames serve_frames frames_loop next_frame serve_response ntohl complete
serves_a_response = refl

abbrev torn : Reader
torn = reader (0 ∷ 0 ∷ 0 ∷ [])

served_in_pieces_example :
    let (k1, r1, s1, es1) = handle_readable_frames sevens 20 torn awaited in
    let (k2, r2, s2, es2) =
      handle_readable_frames sevens 30
        (record r1 { read_buffer = r1.read_buffer ++ (2 ∷ 7 ∷ 9 ∷ []) })
        s1 in
    let (k, r', s', es) = handle_readable_frames sevens 30 (reader one_frame) awaited in
    (k ≡ k2) × (s' ≡ s2) × (es ≡ es1 ++ es2) × ((k ≡ false) ⊎ (r'.read_buffer ≡ r2.read_buffer))
unfolding handle_readable_frames serve_frames frames_loop next_frame
served_in_pieces_example = served_in_pieces sevens 20 30 torn (2 ∷ 7 ∷ 9 ∷ []) awaited refl

one_frame-Encodes : Encodes sevens (response (9 ∷ []) ∷ []) one_frame
unfolding encode_frame htonl
one_frame-Encodes = (7 ∷ 9 ∷ [], one_frame, [], refl, refl, refl, refl)

header_only-incomplete : next_frame sevens (0 ∷ 0 ∷ []) ≡ incomplete
unfolding next_frame
header_only-incomplete = refl

served_in_order_example :
    let (k, r', s', es) =
      handle_readable_frames sevens 20 (reader (one_frame ++ (0 ∷ 0 ∷ []))) awaited in
    (k ≡ true)
    × (r'.read_buffer ≡ 0 ∷ 0 ∷ [])
    × (s' ≡ (serve_all (response (9 ∷ []) ∷ []) awaited).0)
    × (es ≡ (serve_all (response (9 ∷ []) ∷ []) awaited).1)
served_in_order_example =
    served_in_order sevens 20 (response (9 ∷ []) ∷ []) (reader (one_frame ++ (0 ∷ 0 ∷ [])))
      one_frame (0 ∷ 0 ∷ []) awaited sevens-IsLawful one_frame-Encodes header_only-incomplete refl
