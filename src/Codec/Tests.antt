-- ===== src/Codec/Tests.antt =====
-- Runs of the codec on small streams, and its theorems at concrete inputs.
use mini_rpc.Prelude.{some_inj, ◌≡◌, refl, sym, ap, List, [], ◌∷◌, ◌++◌, false, some, length}
use mini_rpc.Io.{
  Bytes, Recv, got, failed, eintr, other, Send, took, refused, ok, err, Protobuf, IsLawful,
  to_string,
}
use mini_rpc.Codec.{htonl, ntohl, read_n, read_message, write_n, write_message}
use mini_rpc.Codec.Reading.{Delivers, done, interrupted, piece}
use mini_rpc.Codec.Roundtrip.{message_roundtrip}

-- A message type whose messages are their own serialization.
abbrev raw : Protobuf Bytes
raw = record { byte_size = length; serialize = some; parse = some }

raw-IsLawful : IsLawful raw
raw-IsLawful = record { size = λ m b e. ap length (sym (some_inj e)); read_back = λ m b e. sym e }

abbrev three_sends : List Send
three_sends = took 3 ∷ refused eintr ∷ took 1 ∷ took 2 ∷ []

abbrev header_pieces : List Recv
header_pieces = got (0 ∷ 0 ∷ []) ∷ failed eintr ∷ got (0 ∷ 2 ∷ []) ∷ []

abbrev body_pieces : List Recv
body_pieces = got (7 ∷ []) ∷ got (9 ∷ []) ∷ []

header-Delivers : Delivers header_pieces (0 ∷ 0 ∷ 0 ∷ 2 ∷ [])
header-Delivers = piece 0 (0 ∷ []) (interrupted (piece 0 (2 ∷ []) done))

body-Delivers : Delivers body_pieces (7 ∷ 9 ∷ [])
body-Delivers = piece 7 [] (piece 9 [] done)

send_two_bytes :
    write_message raw (7 ∷ 9 ∷ []) (record { sends = three_sends; wire = [] })
    ≡ (ok tt, record { sends = []; wire = 0 ∷ 0 ∷ 0 ∷ 2 ∷ 7 ∷ 9 ∷ [] })
unfolding write_message write_n htonl
send_two_bytes = refl

reset_in_body :
    read_message raw false
      (header_pieces ++ (got (7 ∷ []) ∷ failed (other "Connection reset") ∷ []))
    ≡ (err "recv failed: Connection reset", [])
unfolding read_message read_n ntohl
reset_in_body = refl

print_number : to_string 4096 ≡ "4096"
unfolding to_string
print_number = refl

message_roundtrip_example :
    read_message raw false (header_pieces ++ (body_pieces ++ [])) ≡ (ok (7 ∷ 9 ∷ []), [])
unfolding write_message write_n htonl
message_roundtrip_example =
    message_roundtrip raw (7 ∷ 9 ∷ []) three_sends raw-IsLawful refl refl header-Delivers
      body-Delivers []
