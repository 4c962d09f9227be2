-- ===== src/Codec.antt =====
-- protocol/codec.h and protocol/codec.cpp: length-prefixed protobuf messages over a blocking socket.
pub mod Reading
pub mod Writing
pub mod Roundtrip
mod Tests
use Prim.Native.String.{◌++◌ as str_append}
use mini_rpc.Prelude.{
  ℕ, zero, suc, ◌+◌, ◌-◌, ◌*◌, ◌/◌, ◌%◌, ◌^◌, List, [], ◌∷◌, ◌++◌, Bool, ◌||◌, ◌==◌, ltb, length,
  drop, take,
}
use mini_rpc.Io.{
  Bytes, Recv, got, eof, failed, Errno, eintr, eagain, other, Send, took, refused, strerror,
  Outcome, ok, err, waiting, Action, ◌>>=◌, ◌>>◌, or_fail, refuse_if, to_string, Protobuf,
}

abbrev pub frame_header_bytes : ℕ
frame_header_bytes = 4

abbrev pub max_frame_size : ℕ
max_frame_size = 4 * 1024 * 1024

-- The bytes in memory of `htonl(n)`, on a host of either order.
unfoldable pub htonl : ℕ → Bytes
htonl n = (n / 2 ^ 24 % 256) ∷ (n / 2 ^ 16 % 256) ∷ (n / 2 ^ 8 % 256) ∷ (n % 256) ∷ []

-- `ntohl` of the first four bytes.
unfoldable pub ntohl : Bytes → ℕ
ntohl (a ∷ b ∷ c ∷ d ∷ _) = a * 2 ^ 24 + b * 2 ^ 16 + c * 2 ^ 8 + d
ntohl _ = 0

abbrev pub prepend : Bytes → Outcome Bytes × List Recv → Outcome Bytes × List Recv
prepend xs (ok ys, rs) = (ok (xs ++ ys), rs)
prepend xs (err e, rs) = (err e, rs)
prepend xs (waiting, rs) = (waiting, rs)

-- `Codec::ReadN`, with `left` bytes still to read.
pub read_n : ℕ → Action (List Recv) Bytes
read_n zero rs = (ok [], rs)
read_n (suc left) [] = (waiting, [])
read_n (suc left) (got xs ∷ rs) = prepend xs (read_n (suc left - length xs) rs)
read_n (suc left) (eof ∷ rs) = (err "peer closed connection", rs)
read_n (suc left) (failed eintr ∷ rs) = read_n (suc left) rs
read_n (suc left) (failed eagain ∷ rs) = (err (str_append "recv failed: " (strerror eagain)), rs)
read_n (suc left) (failed (other s) ∷ rs) = (err (str_append "recv failed: " s), rs)

-- The sending side: the results of `::send` to come, and the bytes that the kernel has taken.
pub record Out : Type 0 where
  pub sends : List Send
  pub wire : Bytes

-- `Codec::WriteN`. The list of results is an argument of its own, on which the loop recurs.
pub write_loop : Bytes → List Send → Bytes → Outcome (Unit {0}) × Out
write_loop [] rs wire = (ok tt, record { sends = rs; wire = wire })
write_loop (b ∷ bs) [] wire = (waiting, record { sends = []; wire = wire })
write_loop (b ∷ bs) (took n ∷ rs) wire = write_loop (drop n (b ∷ bs)) rs (wire ++ take n (b ∷ bs))
write_loop (b ∷ bs) (refused eintr ∷ rs) wire = write_loop (b ∷ bs) rs wire
write_loop (b ∷ bs) (refused eagain ∷ rs) wire =
    (err (str_append "send failed: " (strerror eagain)), record { sends = rs; wire = wire })
write_loop (b ∷ bs) (refused (other s) ∷ rs) wire =
    (err (str_append "send failed: " s), record { sends = rs; wire = wire })

unfoldable pub write_n : Bytes → Action Out (Unit {0})
unfolding write_loop
write_n buffer o = write_loop buffer o.sends o.wire

abbrev pub is_bad_length : ℕ → Bool
is_bad_length n = n == 0 || ltb max_frame_size n

module _ {A : Type 0} (p : Protobuf A) where
  -- `Codec::ReadMessage`; the flag says whether `message` is null.
  pub read_message : Bool → Action (List Recv) A
  read_message is_null = do
    refuse_if is_null "message is null"
    header ← read_n frame_header_bytes
    refuse_if (is_bad_length (ntohl header))
        (str_append "invalid frame length: " (to_string (ntohl header)))
    body ← read_n (ntohl header)
    or_fail (p.parse body) "failed to parse protobuf body"

  -- `Codec::WriteMessage`
  unfoldable pub write_message : A → Action Out (Unit {0})
  write_message m = do
    refuse_if (is_bad_length (p.byte_size m))
        (str_append "invalid serialized size: " (to_string (p.byte_size m)))
    body ← or_fail (p.serialize m) "failed to serialize protobuf message"
    write_n (htonl (p.byte_size m))
    write_n body
