-- ===== src/Connection/Sending/Queueing.antt =====
-- How `QueueResponse` and `EnqueueResponse` of server/connection.cpp can end.
use mini_rpc.Prelude.{
  ℕ, ◌+◌, ◌≡◌, refl, ◌⊎◌, String, ltb, [], ◌∷◌, ◌++◌, length, Option-cases, Bool-cases, inl, inr,
  some,
}
use mini_rpc.Io.{Bytes, ok, err, Protobuf}
use mini_rpc.Codec.{is_bad_length, htonl}
use mini_rpc.Proto.{RpcResponse}
use mini_rpc.Frame.{encode_frame}
use mini_rpc.Connection.{Connection}
use mini_rpc.Connection.Sending.{push_frame, queue_response}

abbrev pub pushed : Bytes → Connection → Connection
pushed frame c = record c {
  pending_write_bytes = c.pending_write_bytes + length frame;
  write_buffer = c.write_buffer ++ (record { bytes = frame; offset = 0 } ∷ []);
}

module _ (p : Protobuf RpcResponse) (now : ℕ) (response : RpcResponse) (c : Connection) where
  abbrev pub IsRefused : Type 0
  IsRefused = (e : String) × (queue_response p response c ≡ (err e, c))

  abbrev pub IsQueued : Type 0
  IsQueued =
      (body : Bytes) × (p.serialize response ≡ some body)
      × (queue_response p response c ≡ (ok tt, pushed (htonl (length body) ++ body) c))

  -- A response is refused and nothing changes, or it is queued as one frame.
  pub queue_response-cases : IsRefused ⊎ IsQueued
  unfolding queue_response push_frame encode_frame
  queue_response-cases = elim (Bool-cases (is_bad_length (p.byte_size response))) [
    | inl bad ↦ inl ("invalid response frame size", rw bad refl)
    | inr fine ↦ elim (Option-cases (p.serialize response)) [
      | inl s ↦ inl ("failed to serialize RpcResponse", rw (fine, s) refl)
      | inr (body, s) ↦ elim (Bool-cases (is_bad_length (length body))) [
        | inl bad ↦ inl ("invalid frame body size", rw (fine, s, bad) refl)
        | inr fine' ↦
            elim (Bool-cases (
              ltb c.options.max_write_buffer_bytes
                (c.pending_write_bytes + length (htonl (length body) ++ body)))) [
                  | inl full ↦ inl (
                    "write buffer backpressure limit exceeded",
                    rw (fine, s, fine') (rw full refl),
                  )
                  | inr room ↦ inr (body, s, rw (fine, s, fine') (rw room refl))
                ]
      ]
    ]
  ]
