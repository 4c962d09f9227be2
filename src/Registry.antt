-- ===== src/Registry.antt =====
-- server/service_registry.h and server/service_registry.cpp: RPC methods by name.
pub mod Keys
pub mod Lookup
mod Tests
use Prim.Native.String.{◌++◌ as str_append}
use text.Mathlib.Text.{◌==◌ as str_eq}
use mini_rpc.Prelude.{
  String, Option, none, some, Bool, true, false, ◌||◌, List, ◌∷◌, is_some, if◌then◌else◌, lookup,
}
use mini_rpc.Io.{Bytes}
use mini_rpc.RpcError.{StdErrorCode}

-- How a call of a user's handler ends: it returns a payload, or throws `RpcError`, another
-- `std::exception`, or anything else.
pub data Reply : Type 0 where
  returns : Bytes → Reply
  throws_rpc : StdErrorCode → String → Reply
  throws_std : String → Reply
  throws_other : Reply

abbrev pub Handler : Type 0
Handler = Bytes → Reply

-- The `handlers_` map.
abbrev pub Registry : Type 0
Registry = List (String × Handler)

unfoldable pub build_key : String → String → String
build_key service method = str_append service (str_append "." method)

-- `none` is an empty `std::function`.
pub register : String → String → Option Handler → Registry → Bool × Registry
register service method none reg = (false, reg)
register service method (some handler) reg =
    if str_eq service "" || str_eq method ""
    then (false, reg)
    else if is_some (lookup (build_key service method) reg)
    then (false, reg)
    else (true, (build_key service method, handler) ∷ reg)

unfoldable pub find : String → String → Registry → Option Handler
find service method reg = lookup (build_key service method) reg
