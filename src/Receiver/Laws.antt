-- ===== src/Receiver/Laws.antt =====
-- The loop: its fuel, and where it stops.
use mini_rpc.Prelude.{
  ℕ, zero, suc, ◌+◌, ◌≤◌, ◌≡◌, ◌⊎◌, ◌∙◌, take-append_le, drop-append_le, length-append, refl, ap,
  sym, true, false, [], ◌∷◌, ◌++◌, arith, inl, inr, Option-cases, length, take, drop, length-drop,
  some,
}
use mini_rpc.Io.{Bytes, Protobuf}
use mini_rpc.Codec.{ntohl, is_bad_length}
use mini_rpc.Proto.{RpcResponse}
use mini_rpc.Pending.{Slots, fail_all}
use mini_rpc.Receiver.{
  after_frames, Reader, handle_readable_frames, bad_response, bad_frame_length, prepend_pass,
  idle_pass, stop_pass, serve_frames, Head, incomplete, bad_length, unparsed, frame, Pass,
  serve_response, next_frame, frames_loop,
}

pub Head-cases :
    (h : Head)
    → (h ≡ incomplete)
      ⊎ ((h ≡ bad_length) ⊎ ((h ≡ unparsed) ⊎ ((m : RpcResponse) × (n : ℕ) × (h ≡ frame m n))))
Head-cases incomplete = inl refl
Head-cases bad_length = inr (inl refl)
Head-cases unparsed = inr (inr (inl refl))
Head-cases (frame m n) = inr (inr (inr (m, n, refl)))

after_frames_lem :
    (now : ℕ) (r : Reader) (pass : Pass)
    → let (k, r', s', es) = after_frames now r pass in
      (k ≡ pass.kept)
      × (s' ≡ pass.slots)
      × (es ≡ pass.effects)
      × (pass.kept ≡ true → r'.read_buffer ≡ drop pass.offset r.read_buffer)
after_frames_lem now r pass = ground arith

module _ (p : Protobuf RpcResponse) where
  -- A frame has a header, and lies within the bytes.
  pub next_frame-frame :
      (bytes : Bytes) {m : RpcResponse} {n : ℕ}
      → next_frame p bytes ≡ frame m n
      → (n ≡ 4 + ntohl (take 4 bytes))
        × (n ≤ length bytes)
        × (4 ≤ length bytes)
        × (is_bad_length (ntohl (take 4 bytes)) ≡ false)
        × (p.parse (take (ntohl (take 4 bytes)) (drop 4 bytes)) ≡ some m)
  unfolding next_frame
  next_frame-frame bytes {m} {n} h =
      elim (Option-cases (p.parse (take (ntohl (take 4 bytes)) (drop 4 bytes)))) [
        | inl e ↦ ground (arith, rw e at h)
        | inr (m', e) ↦ ground (arith, rw e at h)
      ]

  pub empty_incomplete : (bytes : Bytes) → length bytes ≤ 0 → next_frame p bytes ≡ incomplete
  unfolding next_frame
  empty_incomplete bytes h = ground arith

  pub frames_loop-fuel :
      (f g : ℕ) (bytes : Bytes) (s : Slots)
      → length bytes ≤ f
      → length bytes ≤ g
      → frames_loop p f bytes s ≡ frames_loop p g bytes s
  unfolding frames_loop
  frames_loop-fuel zero zero bytes s hf hg = refl
  frames_loop-fuel zero (suc g) bytes s hf hg =
      rw (empty_incomplete bytes (omega arith), frames_loop)
  frames_loop-fuel (suc f) zero bytes s hf hg =
      rw (empty_incomplete bytes (omega arith), frames_loop)
  frames_loop-fuel (suc f) (suc g) bytes s hf hg = elim (Head-cases (next_frame p bytes)) [
    | inl e ↦ rw (e, frames_loop)
    | inr (inl e) ↦ rw (e, frames_loop)
    | inr (inr (inl e)) ↦ rw (e, frames_loop)
    | inr (inr (inr (m, n, e))) ↦
        let h = next_frame-frame bytes e in
        rw (e, frames_loop)
          (rw (
            frames_loop-fuel f g (drop n bytes) (serve_response m s).0
              (omega (arith, h, length-drop n bytes)) (omega (arith, h, length-drop n bytes))))
  ]

  -- The converse of `next_frame-frame`.
  pub next_frame_of :
      (bytes : Bytes) {m : RpcResponse}
      → 4 ≤ length bytes
      → is_bad_length (ntohl (take 4 bytes)) ≡ false
      → 4 + ntohl (take 4 bytes) ≤ length bytes
      → p.parse (take (ntohl (take 4 bytes)) (drop 4 bytes)) ≡ some m
      → next_frame p bytes ≡ frame m (4 + ntohl (take 4 bytes))
  unfolding next_frame
  next_frame_of bytes header fine whole e = ground (arith, e)

  -- More bytes behind a frame do not change it.
  pub next_frame-append :
      (a b : Bytes) {m : RpcResponse} {n : ℕ}
      → next_frame p a ≡ frame m n
      → next_frame p (a ++ b) ≡ frame m n
  next_frame-append a b {m} {n} e =
      let (size, within, header, fine, body) = next_frame-frame a e in
      let cut : take 4 (a ++ b) ≡ take 4 a = take-append_le 4 a b header in
      let rest : take (ntohl (take 4 a)) (drop 4 (a ++ b)) ≡ take (ntohl (take 4 a)) (drop 4 a) =
        ap (take (ntohl (take 4 a))) (drop-append_le 4 a b header)
        ∙ take-append_le (ntohl (take 4 a)) (drop 4 a) b
            (omega (arith, size, within, length-drop 4 a)) in
      next_frame_of (a ++ b) (omega (arith, header, length-append a b)) (rw cut fine)
        (rw cut (omega (arith, size, within, length-append a b))) ((rw cut (rw rest body)))
      ∙ ap (frame m) (rw cut (sym size))

  -- The four ways in which the loop goes on.
  pub serve_frames-incomplete :
      (bytes : Bytes) (s : Slots)
      → next_frame p bytes ≡ incomplete
      → serve_frames p bytes s ≡ idle_pass s
  unfolding serve_frames frames_loop
  serve_frames-incomplete [] s e = refl
  serve_frames-incomplete (b ∷ bytes) s e = rw (e, frames_loop)

  pub serve_frames-bad_length :
      (bytes : Bytes) (s : Slots)
      → next_frame p bytes ≡ bad_length
      → serve_frames p bytes s ≡ stop_pass (fail_all bad_frame_length s)
  unfolding serve_frames frames_loop next_frame
  serve_frames-bad_length [] s e = cc
  serve_frames-bad_length (b ∷ bytes) s e = rw (e, frames_loop)

  pub serve_frames-unparsed :
      (bytes : Bytes) (s : Slots)
      → next_frame p bytes ≡ unparsed
      → serve_frames p bytes s ≡ stop_pass (fail_all bad_response s)
  unfolding serve_frames frames_loop next_frame
  serve_frames-unparsed [] s e = cc
  serve_frames-unparsed (b ∷ bytes) s e = rw (e, frames_loop)

  pub serve_frames-frame :
      (bytes : Bytes) (s : Slots) {m : RpcResponse} {n : ℕ}
      → next_frame p bytes ≡ frame m n
      → serve_frames p bytes s
        ≡ prepend_pass n
            (serve_response m s).1
            (serve_frames p (drop n bytes) (serve_response m s).0)
  unfolding serve_frames frames_loop
  serve_frames-frame [] s e = absurd (omega (arith, next_frame-frame [] e))
  serve_frames-frame (b ∷ bytes) s {m} {n} e =
      let h = next_frame-frame (b ∷ bytes) e in
      rw (e, frames_loop)
        (ap (prepend_pass n (serve_response m s).1) (
          frames_loop-fuel (length bytes) (length (drop n (b ∷ bytes))) (drop n (b ∷ bytes))
            (serve_response m s).0 (omega (arith, h, length-drop n (b ∷ bytes))) (omega arith)))

  pub serve_frames-offset_le :
      (f : ℕ) (bytes : Bytes) (s : Slots)
      → length bytes ≤ f
      → (serve_frames p bytes s).offset ≤ length bytes
  serve_frames-offset_le zero bytes s hf =
      rw (serve_frames-incomplete bytes s (empty_incomplete bytes hf)) (omega arith)
  serve_frames-offset_le (suc f) bytes s hf = elim (Head-cases (next_frame p bytes)) [
    | inl e ↦ rw (serve_frames-incomplete bytes s e) (omega arith)
    | inr (inl e) ↦ rw (serve_frames-bad_length bytes s e) (omega arith)
    | inr (inr (inl e)) ↦ rw (serve_frames-unparsed bytes s e) (omega arith)
    | inr (inr (inr (m, n, e))) ↦
        let h = next_frame-frame bytes e in
        rw (serve_frames-frame bytes s e) (
          omega (
            arith,
            h,
            length-drop n bytes,
            serve_frames-offset_le f (drop n bytes) (serve_response m s).0
                (omega (arith, h, length-drop n bytes)),
          ))
  ]

  -- What the caller sees of a pass over the buffer.
  pub handle_readable_frames_lem :
      (now : ℕ) (r : Reader) (s : Slots)
      → let (k, r', s', es) = handle_readable_frames p now r s in
        let pass = serve_frames p r.read_buffer s in
        (k ≡ pass.kept)
        × (s' ≡ pass.slots)
        × (es ≡ pass.effects)
        × (pass.kept ≡ true → r'.read_buffer ≡ drop pass.offset r.read_buffer)
  unfolding handle_readable_frames
  handle_readable_frames_lem now r s = after_frames_lem now r (serve_frames p r.read_buffer s)
