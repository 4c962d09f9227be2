-- ===== src/Receiver/Served.antt =====
-- What the server's framing sends is what the client serves.
use mini_rpc.Prelude.{
  drop-append, ℕ, ◌+◌, ◌≡◌, refl, ap, sym, ◌∙◌, true, false, some, List, [], ◌∷◌, ◌++◌,
  append_assoc, arith, length, take, drop, length-append, take-append_of, drop-append_of,
}
use mini_rpc.Io.{Bytes, Protobuf, IsLawful, ok}
use mini_rpc.Codec.{htonl, ntohl, is_bad_length}
use mini_rpc.Codec.Reading.{length-htonl, ntohl-htonl}
use mini_rpc.Frame.{encode_frame}
use mini_rpc.Proto.{RpcResponse}
use mini_rpc.Pending.{Slots, Effect}
use mini_rpc.Receiver.{
  incomplete, frame, serve_response, next_frame, serve_frames, Reader, handle_readable_frames,
}
use mini_rpc.Receiver.Laws.{
  next_frame_of, serve_frames-incomplete, serve_frames-frame, handle_readable_frames_lem,
}

-- The responses, one after the other.
abbrev pub serve_all : List RpcResponse → Slots → Slots × List Effect
serve_all [] s = (s, [])
serve_all (m ∷ ms) s =
    let (s', es) = serve_response m s in let (s'', es') = serve_all ms s' in (s'', es ++ es')

module _ (p : Protobuf RpcResponse) where
  -- The bytes are the frames that `EncodeFrame` makes of the responses, one behind the other.
  abbrev pub Encodes : List RpcResponse → Bytes → Type 0
  Encodes [] bytes = bytes ≡ []
  Encodes (m ∷ ms) bytes =
      (body : Bytes) × (one : Bytes) × (rest : Bytes) × (p.serialize m ≡ some body)
      × (encode_frame body ≡ ok one)
      × (bytes ≡ one ++ rest)
      × Encodes ms rest

  encode_frame-ok :
      (body : Bytes) {one : Bytes}
      → encode_frame body ≡ ok one
      → (is_bad_length (length body) ≡ false) × (one ≡ htonl (length body) ++ body)
  unfolding encode_frame
  encode_frame-ok body e = ground arith

  next_frame-encoded :
      (m : RpcResponse) (body rest : Bytes)
      → p.parse body ≡ some m
      → is_bad_length (length body) ≡ false
      → next_frame p ((htonl (length body) ++ body) ++ rest) ≡ frame m (4 + length body)
  next_frame-encoded m body rest e fine =
      let bytes : Bytes = (htonl (length body) ++ body) ++ rest in
      let four : 4 ≡ length (htonl (length body)) = sym (length-htonl (length body)) in
      let shape : bytes ≡ htonl (length body) ++ (body ++ rest) =
        append_assoc (htonl (length body)) body rest in
      let head : take 4 bytes ≡ htonl (length body) =
        ap (take 4) shape ∙ take-append_of 4 (htonl (length body)) (body ++ rest) four in
      let behind : drop 4 bytes ≡ body ++ rest =
        ap (drop 4) shape ∙ drop-append_of 4 (htonl (length body)) (body ++ rest) four in
      let size : ntohl (take 4 bytes) ≡ length body =
        ap ntohl head ∙ ntohl-htonl (length body) (ground (arith, fine)) in
      let total : length bytes ≡ 4 + length body + length rest = omega (
        arith,
        length-append (htonl (length body) ++ body) rest,
        length-append (htonl (length body)) body,
        four,
      ) in
      let inner : take (ntohl (take 4 bytes)) (drop 4 bytes) ≡ body =
        ap (λ k. take k (drop 4 bytes)) size
        ∙ ap (take (length body)) behind
        ∙ take-append_of (length body) body rest refl in
      next_frame_of p bytes (omega (arith, total)) (ap is_bad_length size ∙ fine)
        (omega (arith, total, size)) (ap p.parse inner ∙ e)
      ∙ ap (λ k. frame m (4 + k)) size

  serve_frames-encoded :
      (ms : List RpcResponse) (bytes tail : Bytes) (s : Slots)
      → IsLawful p
      → Encodes ms bytes
      → next_frame p tail ≡ incomplete
      → serve_frames p (bytes ++ tail) s ≡ record {
        kept = true;
        offset = length bytes;
        slots = (serve_all ms s).0;
        effects = (serve_all ms s).1;
      }
  serve_frames-encoded [] bytes tail s law e t = rw e (serve_frames-incomplete p tail s t)
  serve_frames-encoded (m ∷ ms) bytes tail s law (body, one, rest, se, en, sh, more) t =
      let (fine, is_one) = encode_frame-ok body en in
      let fb : Bytes = htonl (length body) ++ body in
      let whole : bytes ++ tail ≡ fb ++ (rest ++ tail) =
        ap (λ b. b ++ tail) (sh ∙ ap (λ b. b ++ rest) is_one) ∙ append_assoc fb rest tail in
      let size : 4 + length body ≡ length fb =
        omega (arith, length-append (htonl (length body)) body, length-htonl (length body)) in
      let all : length bytes ≡ 4 + length body + length rest =
        omega (arith, ap length sh, ap length is_one, length-append one rest, size) in
      let left : drop (4 + length body) (fb ++ (rest ++ tail)) ≡ rest ++ tail =
        drop-append_of (4 + length body) fb (rest ++ tail) size in
      rw (
        whole,
        serve_frames-frame p (fb ++ (rest ++ tail)) s
            (next_frame-encoded m body (rest ++ tail) (law.read_back m body se) fine),
        left,
        serve_frames-encoded ms rest tail (serve_response m s).0 law more t,
        all,
      )

  -- With a lawful message type, the frames that the server makes of responses are served in the
  -- order in which they were sent, each once, whatever partial frame follows them; and the buffer
  -- then holds exactly that partial frame.
  pub served_in_order :
      (now : ℕ) (ms : List RpcResponse) (r : Reader) (bytes tail : Bytes) (s : Slots)
      → IsLawful p
      → Encodes ms bytes
      → next_frame p tail ≡ incomplete
      → r.read_buffer ≡ bytes ++ tail
      → let (k, r', s', es) = handle_readable_frames p now r s in
        (k ≡ true) × (r'.read_buffer ≡ tail) × (s' ≡ (serve_all ms s).0) × (es ≡ (serve_all ms s).1)
  served_in_order now ms r bytes tail s law e t here =
      let seen = handle_readable_frames_lem p now r s in
      let pass : serve_frames p r.read_buffer s ≡ _ =
        ap (λ b. serve_frames p b s) here ∙ serve_frames-encoded ms bytes tail s law e t in
      let left : drop (length bytes) r.read_buffer ≡ tail =
        ap (drop (length bytes)) here ∙ drop-append bytes tail in
      ground (arith, seen, pass, left)
