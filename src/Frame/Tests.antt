-- ===== src/Frame/Tests.antt =====
-- The framing of one small body.
use mini_rpc.Prelude.{◌≡◌, refl, [], ◌∷◌}
use mini_rpc.Io.{err}
use mini_rpc.Codec.{ntohl}
use mini_rpc.Frame.{encode_frame, decode_frame_header}

empty_body : encode_frame [] ≡ err "invalid frame body size"
unfolding encode_frame
empty_body = refl

too_long : decode_frame_header (1 ∷ 0 ∷ 0 ∷ 0 ∷ []) ≡ err "invalid request frame length"
unfolding decode_frame_header ntohl
too_long = refl
