-- ===== src/Handler/Tests.antt =====
-- A handler that fails, at concrete requests.
use mini_rpc.Prelude.{◌≡◌, refl, [], ◌∷◌}
use mini_rpc.RpcError.{to_int, make_error_code, to_proto_error_code}
use mini_rpc.Proto.{RpcRequest}
use mini_rpc.Registry.{throws_std, Registry, find, build_key}
use mini_rpc.Handler.{handle_one_request, respond}

abbrev fragile : Registry
fragile = ("Disk.Read", λ payload. throws_std "no such block") ∷ []

abbrev read_block : RpcRequest
read_block = record {
  request_id = "17";
  service_name = "Disk";
  method_name = "Read";
  payload = 4 ∷ [];
}

failing_handler : handle_one_request fragile read_block ≡ record {
  request_id = "17";
  error_code = 3;
  error_msg = "handler exception: no such block";
  payload = [];
}
unfolding handle_one_request respond find build_key to_int to_proto_error_code make_error_code
failing_handler = refl
