-- ===== src/Codec/Roundtrip.antt =====
-- What `WriteMessage` sends, `ReadMessage` receives; and both refuse the same lengths.
use Prim.Native.String.{◌++◌ as str_append}
use mini_rpc.Prelude.{
  ℕ, ◌<◌, ◌≡◌, sym, List, [], ◌++◌, true, false, some, arith, length, take, drop, take-append_of,
  drop-append_of, Bool-cases, inl, inr,
}
use mini_rpc.Io.{Bytes, Recv, Send, ok, err, Protobuf, IsLawful, to_string}
use mini_rpc.Codec.{Out, htonl, read_message, write_message, is_bad_length}
use mini_rpc.Codec.Reading.{Delivers, length-htonl, ntohl-htonl, read_header, read_message-Delivers}
use mini_rpc.Codec.Writing.{write_message-ok}

module _ {A : Type 0} (p : Protobuf A) where
  write_message-size :
      (m : A) (o : Out) → (write_message p m o).0 ≡ ok tt → is_bad_length (p.byte_size m) ≡ false
  unfolding write_message
  write_message-size m o h = elim (Bool-cases (is_bad_length (p.byte_size m))) [
    | inl bad ↦ cc (rw bad at h)
    | inr fine ↦ fine
  ]

  -- With a lawful message type, a message whose write succeeded is the message that is read,
  -- however the kernel cut it while sending and while delivering header and body; and the receiver
  -- stops exactly at its end.
  pub message_roundtrip :
      (m : A) {body : Bytes} (sends : List Send) {hs bs : List Recv}
      → IsLawful p
      → p.serialize m ≡ some body
      → (write_message p m (record { sends = sends; wire = [] })).0 ≡ ok tt
      → Delivers hs (take 4 (write_message p m (record { sends = sends; wire = [] })).1.wire)
      → Delivers bs (drop 4 (write_message p m (record { sends = sends; wire = [] })).1.wire)
      → (rest : List Recv) → read_message p false (hs ++ (bs ++ rest)) ≡ (ok m, rest)
  message_roundtrip m {body} sends {hs} {bs} law s h hd bd rest =
      let o : Out = record { sends = sends; wire = [] } in
      let len : length body ≡ p.byte_size m = law.size m body s in
      let fine : is_bad_length (p.byte_size m) ≡ false = write_message-size m o h in
      let wire = write_message-ok p m body o s h in
      let head : 4 ≡ length (htonl (p.byte_size m)) = sym (length-htonl (p.byte_size m)) in
      let hd' : Delivers hs (htonl (length body)) =
        rw len (rw (wire, take-append_of 4 (htonl (p.byte_size m)) body head) at hd) in
      let bd' : Delivers bs body =
        rw (wire, drop-append_of 4 (htonl (p.byte_size m)) body head) at bd in
      read_message-Delivers p hd' bd' (ground (arith, len, fine)) (ground (arith, len, fine))
        (law.read_back m body s) rest

  -- A message that is empty or too long for a frame is refused before anything is sent.
  pub write_message_bad_length :
      (m : A) (o : Out)
      → is_bad_length (p.byte_size m) ≡ true
      → write_message p m o
        ≡ (err (str_append "invalid serialized size: " (to_string (p.byte_size m))), o)
  unfolding write_message
  write_message_bad_length m o h = rw h

  -- A header that announces no bytes, or more than a frame may hold, is refused as soon as it is
  -- read: no body is waited for.
  pub read_message_bad_length :
      {hs : List Recv} (n : ℕ)
      → Delivers hs (htonl n)
      → n < 4294967296
      → is_bad_length n ≡ true
      → (rest : List Recv)
      → read_message p false (hs ++ rest)
        ≡ (err (str_append "invalid frame length: " (to_string n)), rest)
  unfolding read_message
  read_message_bad_length n d small bad rest =
      rw (read_header d small rest, ntohl-htonl n small, bad)
