-- ===== src/Frame/Laws.antt =====
-- The header that is written is the header that is read.
use mini_rpc.Prelude.{
  ◌+◌, ◌≡◌, sym, ap, ◌∙◌, ◌++◌, false, arith, length, take, take-append_of, length-append,
  append_assoc,
}
use mini_rpc.Io.{Bytes, ok}
use mini_rpc.Codec.{htonl, is_bad_length}
use mini_rpc.Codec.Reading.{length-htonl, ntohl-htonl}
use mini_rpc.Frame.{encode_frame, decode_frame_header}

-- `EncodeFrame` succeeds exactly on the bodies that a frame may hold, and then the receiver reads the
-- body's length from the first four bytes, finds the body behind them, and that is all.
pub decode-encode_frame :
    (body rest : Bytes)
    → is_bad_length (length body) ≡ false
    → (encode_frame body ≡ ok (htonl (length body) ++ body))
      × (length (htonl (length body) ++ body) ≡ 4 + length body)
      × (decode_frame_header ((htonl (length body) ++ body) ++ rest) ≡ ok (length body))
unfolding encode_frame decode_frame_header
decode-encode_frame body rest fine =
    let cut : take 4 ((htonl (length body) ++ body) ++ rest) ≡ htonl (length body) =
      ap (take 4) (append_assoc (htonl (length body)) body rest)
      ∙ take-append_of 4 (htonl (length body)) (body ++ rest) (sym (length-htonl (length body))) in
    (
      rw fine,
      omega (arith, length-append (htonl (length body)) body, length-htonl (length body)),
      rw (cut, ntohl-htonl (length body) (ground (arith, fine)), fine),
    )
