-- ===== src/RpcError.antt =====
-- common/rpc_error.h, common/rpc_error.cpp and the result type of client/rpc_types.h.
pub mod Laws
mod Tests
use mini_rpc.Prelude.{ℕ, zero, suc, String, Bool, true, false, ◌==◌, not, if◌then◌else◌, []}
use mini_rpc.Io.{Bytes}

-- `rpc::common::ErrorCode`, and `rpc::ErrorCode` of proto/rpc.proto.
pub data ErrorCode : Type 0 where
  ok method_not_found parse_error internal_error : ErrorCode

-- `static_cast<int>`, the same numbers in both enumerations.
unfoldable pub to_int : ErrorCode → ℕ
to_int ErrorCode.ok = 0
to_int method_not_found = 1
to_int parse_error = 2
to_int internal_error = 3

-- `std::error_category`, as far as the code tells categories apart.
pub data Category : Type 0 where
  rpc : Category
  foreign : String → Category

-- `std::error_code`. A negative value is any number that is no value of the enumeration.
pub record StdErrorCode : Type 0 where
  pub value : ℕ
  pub category : Category

unfoldable pub make_error_code : ErrorCode → StdErrorCode
unfolding to_int
make_error_code c = record { value = to_int c; category = rpc }

-- `std::error_code::operator bool`: an error is a value other than 0, in any category.
abbrev pub is_error : StdErrorCode → Bool
is_error c = not (c.value == 0)

proto_of_value : ℕ → ℕ
unfolding to_int
proto_of_value zero = to_int ErrorCode.ok
proto_of_value (suc zero) = to_int method_not_found
proto_of_value (suc (suc zero)) = to_int parse_error
proto_of_value (suc (suc (suc zero))) = to_int internal_error
proto_of_value (suc (suc (suc (suc n)))) = to_int internal_error

proto_of_category : StdErrorCode → Category → ℕ
unfolding proto_of_value
proto_of_category c rpc = proto_of_value c.value
proto_of_category c (foreign name) = to_int internal_error

unfoldable pub to_proto_error_code : StdErrorCode → ℕ
unfolding proto_of_category to_int
to_proto_error_code c =
    if not (is_error c) then to_int ErrorCode.ok else proto_of_category c c.category

pub from_proto_error_code : ℕ → StdErrorCode
unfolding make_error_code
from_proto_error_code zero = make_error_code ErrorCode.ok
from_proto_error_code (suc zero) = make_error_code method_not_found
from_proto_error_code (suc (suc zero)) = make_error_code parse_error
from_proto_error_code (suc (suc (suc zero))) = make_error_code internal_error
from_proto_error_code (suc (suc (suc (suc n)))) = make_error_code internal_error

-- `RpcErrorCategory::message`
message : ℕ → String
message zero = "ok"
message (suc zero) = "method not found"
message (suc (suc zero)) = "parse error"
message (suc (suc (suc zero))) = "internal error"
message (suc (suc (suc (suc n)))) = "unknown rpc error"

-- `ToString(ErrorCode)`
to_text : ErrorCode → String
to_text ErrorCode.ok = "OK"
to_text method_not_found = "METHOD_NOT_FOUND"
to_text parse_error = "PARSE_ERROR"
to_text internal_error = "INTERNAL_ERROR"

-- `Status`
pub record Status : Type 0 where
  pub code : StdErrorCode
  pub message : String

pub status_ok : Status → Bool
status_ok s = not (is_error s.code)

-- `RpcCallResult`, which is successful when its status is.
pub record RpcCallResult : Type 0 where
  pub status : Status
  pub response_payload : Bytes

unfoldable pub result_ok : RpcCallResult → Bool
unfolding status_ok
result_ok r = status_ok r.status

pub uninitialized : RpcCallResult
uninitialized = record {
  status = record { code = make_error_code internal_error; message = "uninitialized" };
  response_payload = [];
}

-- `RpcCallResult{{make_error_code(code), text}, {}}`, as the client writes each failure.
unfoldable pub failure : ErrorCode → String → RpcCallResult
failure c text = record {
  status = record { code = make_error_code c; message = text };
  response_payload = [];
}
