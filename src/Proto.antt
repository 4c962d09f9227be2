-- ===== src/Proto.antt =====
-- proto/rpc.proto: the messages of the protocol, and the error codes as they stand in them.
use mini_rpc.Prelude.{ℕ, String}
use mini_rpc.Io.{Bytes}

pub record RpcRequest : Type 0 where
  pub request_id : String
  pub service_name : String
  pub method_name : String
  pub payload : Bytes

pub record RpcResponse : Type 0 where
  pub request_id : String
  pub error_code : ℕ
  pub error_msg : String
  pub payload : Bytes
