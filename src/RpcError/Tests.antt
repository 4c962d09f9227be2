-- ===== src/RpcError/Tests.antt =====
-- The error tables at concrete codes.
use mini_rpc.Prelude.{◌≡◌, refl}
use mini_rpc.RpcError.{method_not_found, foreign, to_proto_error_code, message, to_text}

table_entries :
    (message 2 ≡ "parse error")
    × (message 9 ≡ "unknown rpc error")
    × (to_text method_not_found ≡ "METHOD_NOT_FOUND")
unfolding message to_text
table_entries = (refl, refl, refl)

foreign_error : to_proto_error_code (record { value = 2; category = foreign "generic" }) ≡ 3
unfolding to_proto_error_code
foreign_error = refl
