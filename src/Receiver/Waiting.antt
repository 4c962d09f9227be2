-- ===== src/Receiver/Waiting.antt =====
-- The callers that wait while frames are served: none is lost, and an error leaves none waiting.
use mini_rpc.Pending.Kept.{complete-IsValid, complete-keeps, fail_all-IsValid}
use mini_rpc.Prelude.{
  ℕ, zero, suc, ◌+◌, ◌≤◌, ◌≡◌, false, arith, inl, inr, length, drop, length-drop, Bool-cases,
  starts_with,
}
use mini_rpc.Io.{Bytes, Protobuf}
use mini_rpc.RpcError.{RpcCallResult}
use mini_rpc.Proto.{RpcResponse}
use mini_rpc.Pending.{Slots, fail_all}
use mini_rpc.Pending.Waiters.{Waiter, held_in, woken, woken-append}
use mini_rpc.Pending.Delivery.{fail_all_wakes_all}
use mini_rpc.Pending.Invariant.{IsValid}
use mini_rpc.Receiver.{
  bad_response, bad_frame_length, stop_pass, Pass, serve_response, mapped_result, next_frame,
  serve_frames, Reader, handle_readable_frames,
}
use mini_rpc.Receiver.Laws.{
  serve_frames-frame, next_frame-frame, serve_frames-unparsed, serve_frames-bad_length,
  empty_incomplete, serve_frames-incomplete, Head-cases, handle_readable_frames_lem,
}

serve_response-keeps :
    (w : Waiter) (m : RpcResponse) (s : Slots)
    → IsValid s
    → let (s', es) = serve_response m s in (held_in w s' + woken w es ≡ held_in w s) × IsValid s'
unfolding serve_response
serve_response-keeps w m s v = elim (Bool-cases (starts_with "hb_" m.request_id)) [
  | inl e ↦ rw e (omega arith, v)
  | inr e ↦ rw e (
    complete-keeps w m.request_id (mapped_result m) s v,
    complete-IsValid m.request_id (mapped_result m) s v,
  )
]

abbrev pub Keeps : Waiter → Slots → Pass → Type 0
Keeps w s pass =
    (held_in w pass.slots + woken w pass.effects ≡ held_in w s)
    × IsValid pass.slots
    × (pass.kept ≡ false → held_in w pass.slots ≡ 0)

stop_pass-Keeps :
    (w : Waiter) (r : RpcCallResult) (s : Slots) → IsValid s → Keeps w s (stop_pass (fail_all r s))
stop_pass-Keeps w r s v =
    let (all, none_left) = fail_all_wakes_all r w s in
    (omega (arith, all, none_left), fail_all-IsValid r s v, λ h. none_left)

module _ (p : Protobuf RpcResponse) where
  serve_frames-Keeps :
      (w : Waiter) (f : ℕ) (bytes : Bytes) (s : Slots)
      → length bytes ≤ f
      → IsValid s
      → Keeps w s (serve_frames p bytes s)
  serve_frames-Keeps w zero bytes s hf v =
      rw (serve_frames-incomplete p bytes s (empty_incomplete p bytes hf)) (omega arith, v, λ h. cc)
  serve_frames-Keeps w (suc f) bytes s hf v = elim (Head-cases (next_frame p bytes)) [
    | inl e ↦ rw (serve_frames-incomplete p bytes s e) (omega arith, v, λ h. cc)
    | inr (inl e) ↦
        rw (serve_frames-bad_length p bytes s e) (stop_pass-Keeps w bad_frame_length s v)
    | inr (inr (inl e)) ↦
        rw (serve_frames-unparsed p bytes s e) (stop_pass-Keeps w bad_response s v)
    | inr (inr (inr (m, n, e))) ↦
        let h = next_frame-frame p bytes e in
        let (one, v') = serve_response-keeps w m s v in
        let rest =
          serve_frames-Keeps w f (drop n bytes) (serve_response m s).0
            (omega (arith, h, length-drop n bytes)) v' in
        rw (serve_frames-frame p bytes s e) (
          omega (
            arith,
            one,
            rest.0,
            woken-append w (serve_response m s).1
                (serve_frames p (drop n bytes) (serve_response m s).0).effects,
          ),
          rest.1,
          rest.2,
        )
  ]

  -- While frames are served, no waiter is lost: it is still in the table, or it has been woken. An
  -- error in the stream leaves nobody waiting, and the table stays in shape. (The table is in shape
  -- before.)
  pub handle_readable_frames-keeps :
      (w : Waiter) (now : ℕ) (r : Reader) (s : Slots)
      → IsValid s
      → let (k, r', s', es) = handle_readable_frames p now r s in
        (held_in w s' + woken w es ≡ held_in w s) × IsValid s' × (k ≡ false → held_in w s' ≡ 0)
  handle_readable_frames-keeps w now r s v =
      let (k, ss, es, left) = handle_readable_frames_lem p now r s in
      rw (k, ss, es) (serve_frames-Keeps w (length r.read_buffer) r.read_buffer s (omega arith) v)
