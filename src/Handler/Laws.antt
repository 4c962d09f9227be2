-- ===== src/Handler/Laws.antt =====
-- Every request is answered, under its own id and with a code of the protocol.
use mini_rpc.Prelude.{◌≤◌, ◌≡◌, refl, none, [], arith, inl, inr, Option-cases}
use mini_rpc.RpcError.{internal_error, make_error_code}
use mini_rpc.RpcError.Laws.{to_proto-faithful}
use mini_rpc.Proto.{RpcRequest}
use mini_rpc.Registry.{Reply, returns, throws_rpc, throws_std, throws_other, Registry, find}
use mini_rpc.Handler.{respond, handle_one_request}

respond_lem :
    (request : RpcRequest) (reply : Reply)
    → ((respond request reply).request_id ≡ request.request_id)
      × ((respond request reply).error_code ≤ 3)
unfolding respond
respond_lem request (returns payload) = (refl, omega arith)
respond_lem request (throws_rpc code what) = (refl, (to_proto-faithful code).0)
respond_lem request (throws_std what) =
    (refl, (to_proto-faithful (make_error_code internal_error)).0)
respond_lem request throws_other = (refl, (to_proto-faithful (make_error_code internal_error)).0)

-- Whatever the handler does, the response carries the id of its request and one of the four codes of
-- the protocol; and where no such method is registered it is METHOD_NOT_FOUND, with no payload.
pub handle_one_request_lem :
    (registry : Registry) (request : RpcRequest)
    → let response = handle_one_request registry request in
      (response.request_id ≡ request.request_id)
      × (response.error_code ≤ 3)
      × (find request.service_name request.method_name registry ≡ none
          → (response.error_code ≡ 1) × (response.payload ≡ []))
unfolding handle_one_request
handle_one_request_lem registry request =
    elim (Option-cases (find request.service_name request.method_name registry)) [
      | inl e ↦ rw (e, handle_one_request) (refl, omega arith, λ h. (refl, refl))
      | inr (handler, e) ↦
          rw (e, handle_one_request)
            (
              (respond_lem request (handler request.payload)).0,
              (respond_lem request (handler request.payload)).1,
              λ h. cc,
            )
    ]
