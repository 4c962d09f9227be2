-- ===== src/Handler.antt =====
-- `Connection::HandleOneRequest` of server/connection.cpp: one request to one response.
pub mod Laws
mod Tests
use Prim.Native.String.{◌++◌ as str_append}
use mini_rpc.Prelude.{String, [], none, some}
use mini_rpc.Io.{Bytes}
use mini_rpc.RpcError.{
  ErrorCode, method_not_found, internal_error, to_int, make_error_code, to_proto_error_code,
}
use mini_rpc.Proto.{RpcRequest, RpcResponse}
use mini_rpc.Registry.{
  Reply, returns, throws_rpc, throws_std, throws_other, Handler, Registry, find,
}

-- The response that the fields are first set to: OK, with neither message nor payload.
abbrev pub blank : RpcRequest → RpcResponse
blank request = record {
  request_id = request.request_id;
  error_code = to_int ErrorCode.ok;
  error_msg = "";
  payload = [];
}

-- The `try` block and its three handlers.
unfoldable pub respond : RpcRequest → Reply → RpcResponse
unfolding to_int
respond request (returns payload) = record (blank request) { payload = payload }
respond request (throws_rpc code what) = record (blank request) {
  error_code = to_proto_error_code code;
  error_msg = what;
}
respond request (throws_std what) = record (blank request) {
  error_code = to_proto_error_code (make_error_code internal_error);
  error_msg = str_append "handler exception: " what;
}
respond request throws_other = record (blank request) {
  error_code = to_proto_error_code (make_error_code internal_error);
  error_msg = "handler threw unknown exception";
}

unfoldable pub handle_one_request : Registry → RpcRequest → RpcResponse
unfolding respond to_int
handle_one_request registry request =
    elim (find request.service_name request.method_name registry) [
      | none ↦ record (blank request) {
        error_code = to_int method_not_found;
        error_msg =
            str_append "method not found: "
              (str_append request.service_name (str_append "." request.method_name));
      }
      | some handler ↦ respond request (handler request.payload)
    ]
