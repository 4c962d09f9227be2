-- ===== src/Receiver/Chunks.antt =====
-- How the kernel cuts the stream makes no difference to the client.
use mini_rpc.Prelude.{
  ℕ, false, ◌⊎◌, Bool-cases, zero, suc, ◌+◌, ◌≤◌, ◌≡◌, ap, sym, ◌∙◌, true, List, ◌++◌, append_assoc,
  arith, inl, inr, length, drop, length-drop, drop-append_le, drop-drop,
}
use mini_rpc.Io.{Bytes, Protobuf}
use mini_rpc.Proto.{RpcResponse}
use mini_rpc.Pending.{Slots, Effect}
use mini_rpc.Receiver.{
  Pass, prepend_pass, serve_response, next_frame, serve_frames, Reader, handle_readable_frames,
}
use mini_rpc.Receiver.Laws.{
  serve_frames-offset_le, handle_readable_frames_lem, empty_incomplete, Head-cases,
  next_frame-frame, next_frame-append, serve_frames-incomplete, serve_frames-bad_length,
  serve_frames-unparsed, serve_frames-frame,
}

prepend_twice :
    (n m : ℕ) (es fs : List Effect) (pass : Pass)
    → prepend_pass n es (prepend_pass m fs pass) ≡ prepend_pass (n + m) (es ++ fs) pass
prepend_twice n m es fs pass = rw append_assoc (ground arith)

module _ (p : Protobuf RpcResponse) where
  serve_frames-append :
      (f : ℕ) (a b : Bytes) (s : Slots)
      → length a ≤ f
      → (serve_frames p a s).kept ≡ true
      → serve_frames p (a ++ b) s
        ≡ prepend_pass
            (serve_frames p a s).offset
            (serve_frames p a s).effects
            (serve_frames p (drop (serve_frames p a s).offset a ++ b) (serve_frames p a s).slots)
  serve_frames-append zero a b s hf k =
      rw (serve_frames-incomplete p a s (empty_incomplete p a hf)) (ground arith)
  serve_frames-append (suc f) a b s hf k = elim (Head-cases (next_frame p a)) [
    | inl e ↦ rw (serve_frames-incomplete p a s e) (ground arith)
    | inr (inl e) ↦ cc (rw (serve_frames-bad_length p a s e) at k)
    | inr (inr (inl e)) ↦ cc (rw (serve_frames-unparsed p a s e) at k)
    | inr (inr (inr (m, n, e))) ↦
        let s' : Slots = (serve_response m s).0 in
        let here = serve_frames-frame p a s e in
        let h = next_frame-frame p a e in
        let whole = serve_frames-frame p (a ++ b) s (next_frame-append p a b e) in
        let ih =
          serve_frames-append f (drop n a) b s' (omega (arith, h, length-drop n a))
            (rw here at k) in
        rw (here, whole, drop-append_le n a b h.1, ih)
          (rw (drop-drop (serve_frames p (drop n a) s').offset n a) (
            prepend_twice n (serve_frames p (drop n a) s').offset (serve_response m s).1
              (serve_frames p (drop n a) s').effects _))
  ]

  -- Where the first of two pieces is served without an error, the client does the same whether the
  -- pieces come one after the other or at once: the same calls are completed with the same effects
  -- in the same order; either both ways end with an error or neither does; and where none does, the
  -- same bytes are left.
  pub served_in_pieces :
      (early late : ℕ) (r : Reader) (chunk : Bytes) (s : Slots)
      → (handle_readable_frames p early r s).0 ≡ true
      → let (k1, r1, s1, es1) = handle_readable_frames p early r s in
        let (k2, r2, s2, es2) =
          handle_readable_frames p late (record r1 { read_buffer = r1.read_buffer ++ chunk }) s1 in
        let (k, r', s', es) =
          handle_readable_frames p late (record r { read_buffer = r.read_buffer ++ chunk }) s in
        (k ≡ k2) × (s' ≡ s2) × (es ≡ es1 ++ es2) × ((k ≡ false) ⊎ (r'.read_buffer ≡ r2.read_buffer))
  served_in_pieces early late r chunk s k =
      let first = handle_readable_frames_lem p early r s in
      let r1 : Reader = (handle_readable_frames p early r s).1 in
      let s1 : Slots = (handle_readable_frames p early r s).2 in
      let second =
        handle_readable_frames_lem p late (record r1 { read_buffer = r1.read_buffer ++ chunk })
          s1 in
      let both =
        handle_readable_frames_lem p late (record r { read_buffer = r.read_buffer ++ chunk }) s in
      let kept : (serve_frames p r.read_buffer s).kept ≡ true = sym first.0 ∙ k in
      let joined =
        serve_frames-append (length r.read_buffer) r.read_buffer chunk s (omega arith) kept in
      let left = first.3 kept in
      let o1 : ℕ = (serve_frames p r.read_buffer s).offset in
      let o2 : ℕ = (serve_frames p (drop o1 r.read_buffer ++ chunk) s1).offset in
      let tail : drop o2 (drop o1 r.read_buffer ++ chunk)
          ≡ drop (o1 + o2) (r.read_buffer ++ chunk) =
        sym (
          ap (drop o2) (
            drop-append_le o1 r.read_buffer chunk
              (serve_frames-offset_le p (length r.read_buffer) r.read_buffer s (omega arith))))
        ∙ drop-drop o2 o1 (r.read_buffer ++ chunk) in
      elim (Bool-cases
        (handle_readable_frames p late (record r { read_buffer = r.read_buffer ++ chunk }) s).0) [
          | inl fine ↦ ground (arith, first, second, both, joined, left, tail, fine)
          | inr bad ↦ ground (arith, first, second, both, joined, left, tail, bad)
        ]
