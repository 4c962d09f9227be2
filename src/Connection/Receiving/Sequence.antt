-- ===== src/Connection/Receiving/Sequence.antt =====
-- What serving one frame does in server/connection.cpp, on every path of the loop's body.
use mathlib.Core.Path.{subst}
use text.Mathlib.Text.{◌==◌ as str_eq}
use mini_rpc.Prelude.{
  ℕ, suc, ◌+◌, ◌≡◌, ◌≢◌, refl, ap, inl, inr, Option, none, some, String, List, [], ◌∷◌, ◌++◌,
  length, arith, Bool-cases, Option-cases, length-append,
}
use mini_rpc.Io.{Bytes, Outcome, waiting, Protobuf}
use mini_rpc.Codec.{htonl}
use mini_rpc.Proto.{RpcRequest, RpcResponse}
use mini_rpc.Registry.{Registry}
use mini_rpc.Handler.{handle_one_request}
use mini_rpc.Connection.{Connection, DispatchRequest}
use mini_rpc.Connection.Sending.{enqueue_response}
use mini_rpc.Connection.Sending.Stream.{IsCounted, queue_response_lem}
use mini_rpc.Connection.Sending.Queueing.{queue_response-cases, pushed}
use mini_rpc.Connection.Receiving.{
  serve_body, serve_request, answer, dispatch, dispatch_request, heartbeat_service_name,
  heartbeat_response, parse_failure,
}

-- The sequence numbers of what was dispatched are n + 1, n + 2, and so on.
abbrev pub AreNumbered : ℕ → List DispatchRequest → Type 0
AreNumbered n [] = Unit {0}
AreNumbered n (d ∷ ds) = (d.sequence ≡ suc n) × AreNumbered (suc n) ds

pub record IsNumbered (c : Connection) : Type 0 where
  pub numbered : AreNumbered 0 c.dispatched
  pub next : c.next_request_sequence ≡ length c.dispatched

AreNumbered-append :
    (n : ℕ) (ds : List DispatchRequest) (d : DispatchRequest)
    → AreNumbered n ds
    → d.sequence ≡ suc (n + length ds)
    → AreNumbered n (ds ++ (d ∷ []))
AreNumbered-append n [] d a h = (omega (arith, h), tt)
AreNumbered-append n (x ∷ ds) d a h = (a.0, AreNumbered-append (suc n) ds d a.1 (omega (arith, h)))

-- The buffer is left to the `retrieve`, the call ends, and the counts stay right.
pub record Served (c : Connection) (r : Outcome (Unit {0}) × Connection) : Type 0 where
  pub same_buffer : r.1.read_buffer ≡ c.read_buffer
  pub ends : r.0 ≢ waiting
  pub counted : IsCounted c → IsCounted r.1
  pub numbered : IsNumbered c → IsNumbered r.1

module _ (p : Protobuf RpcResponse) (now : ℕ) (response : RpcResponse) (c : Connection) where
  enqueue_response-Served : Served c (enqueue_response p now response c)
  unfolding enqueue_response
  enqueue_response-Served = elim (queue_response-cases p now response c) [
    | inl (e, refused) ↦
        rw refused
          (record { same_buffer = refl; ends = λ h. cc; counted = λ v. v; numbered = λ n. n })
    | inr (body, s, queued) ↦
        let out : IsCounted c → IsCounted (pushed (htonl (length body) ++ body) c) = λ v.
          subst (λ r. IsCounted r.1) queued
            (queue_response_lem p response c s v (ap (λ r. r.0) queued)).1 in
        rw queued (record {
          same_buffer = refl;
          ends = λ h. cc;
          counted = λ v.
              let v' = out v in
              record { counted = v'.counted; left = v'.left; bounded = v'.bounded };
          numbered = λ n. record { numbered = n.numbered; next = n.next };
        })
  ]

dispatch-Served :
    (dispatcher : DispatchRequest → Option String) (request : RpcRequest) (c : Connection)
    → Served c (dispatch dispatcher request c)
unfolding dispatch
dispatch-Served dispatcher request c =
    let d = dispatch_request (suc c.next_request_sequence) request in
    record {
      same_buffer = refl;
      ends = elim (Option-cases (dispatcher d)) [
        | inl e ↦ rw e (λ h. cc)
        | inr (m, e) ↦ rw e (λ h. cc)
      ];
      counted = λ v. record { counted = v.counted; left = v.left; bounded = v.bounded };
      numbered = λ n. record {
        numbered = AreNumbered-append 0 c.dispatched d n.numbered (omega (arith, n.next));
        next = omega (arith, n.next, length-append c.dispatched (d ∷ []));
      };
    }

module _ (requests : Protobuf RpcRequest) (responses : Protobuf RpcResponse) (registry : Registry)
    (now : ℕ) where
  answer-Served :
      (dispatcher : Option (DispatchRequest → Option String)) (request : RpcRequest)
      (c : Connection)
      → Served c (answer requests responses registry now dispatcher request c)
  unfolding answer
  answer-Served (some dispatcher) request c = dispatch-Served dispatcher request c
  answer-Served none request c =
      enqueue_response-Served responses now (handle_one_request registry request) c

  -- Serving a frame ends, leaves the read buffer alone, keeps the write buffer counted and within its
  -- limit, and gives consecutive sequence numbers to what it dispatches; on success and on failure.
  pub serve_body-Served :
      (body : Bytes) (c : Connection) → Served c (serve_body requests responses registry now body c)
  unfolding serve_body serve_request
  serve_body-Served body c = elim (Option-cases (requests.parse body)) [
    | inl e ↦ rw (e, serve_body) (enqueue_response-Served responses now parse_failure c)
    | inr (request, e) ↦
        rw (e, serve_body)
          (elim (Bool-cases (str_eq request.service_name heartbeat_service_name)) [
            | inl hb ↦
                rw (hb, serve_request)
                  (enqueue_response-Served responses now (heartbeat_response request) c)
            | inr plain ↦ rw (plain, serve_request) (answer-Served c.request_dispatcher request c)
          ])
  ]
