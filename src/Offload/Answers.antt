-- ===== src/Offload/Answers.antt =====
-- A request is answered alike on the worker's thread and in the pool.
use mini_rpc.Prelude.{◌≡◌, refl, inl, inr, Option-cases}
use mini_rpc.Proto.{RpcRequest}
use mini_rpc.Registry.{Reply, returns, throws_rpc, throws_std, throws_other, Registry, find}
use mini_rpc.RpcError.{to_proto_error_code, make_error_code}
use mini_rpc.Connection.{DispatchRequest}
use mini_rpc.Handler.{handle_one_request, respond}
use mini_rpc.Worker.{response_of}
use mini_rpc.Offload.{Job, completed_by, run_task}

abbrev pub request_of : DispatchRequest → RpcRequest
request_of r = record {
  request_id = r.request_id;
  service_name = r.service_name;
  method_name = r.method_name;
  payload = r.payload;
}

completed_by-respond :
    (j : Job) (reply : Reply)
    → response_of (completed_by j reply) ≡ respond (request_of j.request) reply
unfolding completed_by respond to_proto_error_code make_error_code
completed_by-respond j (returns payload) = refl
completed_by-respond j (throws_rpc code what) = refl
completed_by-respond j (throws_std what) = refl
completed_by-respond j throws_other = refl

-- The response that a task of the thread pool hands back is the response that `HandleOneRequest` gives
-- to the same request, whether the method is there or not and however its handler ends.
pub run_task-handle_one_request :
    (registry : Registry) (j : Job)
    → response_of (run_task registry j) ≡ handle_one_request registry (request_of j.request)
unfolding run_task handle_one_request
run_task-handle_one_request registry j =
    elim (Option-cases (find j.request.service_name j.request.method_name registry)) [
      | inl e ↦ rw (e, run_task, handle_one_request) refl
      | inr (handler, e) ↦
          rw (e, run_task, handle_one_request) (completed_by-respond j (handler j.request.payload))
    ]
