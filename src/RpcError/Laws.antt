-- ===== src/RpcError/Laws.antt =====
-- The two translations of error codes are inverse to each other on the codes that there are.
use mini_rpc.Prelude.{ℕ, zero, suc, ◌≤◌, ◌≡◌, refl, arith}
use mini_rpc.RpcError.{
  ErrorCode, method_not_found, parse_error, internal_error, Category, rpc, foreign, StdErrorCode,
  make_error_code, is_error, proto_of_category, to_proto_error_code, from_proto_error_code,
}

-- A code of the framework crosses the wire unchanged.
pub from-to_proto :
    (c : ErrorCode)
    → from_proto_error_code (to_proto_error_code (make_error_code c)) ≡ make_error_code c
unfolding from_proto_error_code to_proto_error_code make_error_code
from-to_proto ErrorCode.ok = refl
from-to_proto method_not_found = refl
from-to_proto parse_error = refl
from-to_proto internal_error = refl

-- Whatever error a handler raises, of this category or another, is sent as one of the four codes of
-- the protocol, and the client takes it for a success exactly when the server did.
pub to_proto-faithful :
    (c : StdErrorCode)
    → (to_proto_error_code c ≤ 3)
      × (is_error (from_proto_error_code (to_proto_error_code c)) ≡ is_error c)
unfolding to_proto_error_code from_proto_error_code proto_of_category
to_proto-faithful c = go c.value c.category
  where
    go :
        (n : ℕ) (k : Category)
        → let d : StdErrorCode = record { value = n; category = k } in
          (to_proto_error_code d ≤ 3)
          × (is_error (from_proto_error_code (to_proto_error_code d)) ≡ is_error d)
    go zero k = (omega arith, refl)
    go (suc zero) rpc = (omega arith, refl)
    go (suc (suc zero)) rpc = (omega arith, refl)
    go (suc (suc (suc zero))) rpc = (omega arith, refl)
    go (suc (suc (suc (suc n)))) rpc = (ground arith, ground arith)
    go (suc n) (foreign name) = (ground arith, ground arith)
