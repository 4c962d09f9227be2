-- ===== src/Buffer.antt =====
-- `Connection::Buffer` of server/connection.h and server/connection.cpp: the bytes read from the
-- socket and not yet parsed, between two cursors in one block of memory. Cursors are `size_t`s that
-- index memory, so their sums do not wrap.
pub mod Memory
pub mod Contents
mod Tests
use mini_rpc.Prelude.{
  ℕ, zero, suc, ◌+◌, ◌-◌, ◌==◌, ltb, leb, List, [], ◌∷◌, ◌++◌, length, take, drop, replicate,
  if◌then◌else◌,
}
use mini_rpc.Io.{Bytes}

pub record Buffer : Type 0 where
  pub storage : Bytes
  pub read_index : ℕ
  pub write_index : ℕ

unfoldable pub make : ℕ → Buffer
make initial_capacity = record {
  storage = replicate initial_capacity 0;
  read_index = 0;
  write_index = 0;
}

abbrev pub readable_bytes : Buffer → ℕ
readable_bytes b = b.write_index - b.read_index

abbrev pub writable_bytes : Buffer → ℕ
writable_bytes b = length b.storage - b.write_index

-- The memory from `peek()` on.
abbrev pub peek : Buffer → Bytes
peek b = drop b.read_index b.storage

-- `memcpy(memory + at, source, source.size())`; what would fall behind the block is dropped here,
-- and `Contents` shows that nothing does.
unfoldable pub copy : Bytes → ℕ → Bytes → Bytes
copy [] at source = []
copy (y ∷ memory) zero [] = y ∷ memory
copy (y ∷ memory) zero (x ∷ source) = x ∷ copy memory zero source
copy (y ∷ memory) (suc at) source = y ∷ copy memory at source

-- `std::vector::resize`
abbrev pub resize : Bytes → ℕ → Bytes
resize memory n = take n memory ++ replicate (n - length memory) 0

unfoldable pub retrieve : ℕ → Buffer → Buffer
retrieve n b =
    let r = b.read_index + n in
    if r == b.write_index
    then record b { read_index = 0; write_index = 0 }
    else record b { read_index = r }

unfoldable pub compact : Buffer → Buffer
compact b = if b.read_index == 0 then b else record b {
  storage =
      if ltb 0 (readable_bytes b)
      then copy b.storage 0 (take (readable_bytes b) (peek b))
      else b.storage;
  write_index = readable_bytes b;
  read_index = 0;
}

unfoldable pub grow : ℕ → Buffer → Buffer
grow len b =
    if ltb (writable_bytes b) len
    then record b { storage = resize b.storage (b.write_index + len) }
    else b

unfoldable pub ensure_writable : ℕ → Buffer → Buffer
unfolding grow
ensure_writable len b = if leb len (writable_bytes b) then b else grow len (compact b)

unfoldable pub put : Bytes → Buffer → Buffer
put bytes b = record b {
  storage = copy b.storage b.write_index bytes;
  write_index = b.write_index + length bytes;
}

unfoldable pub append : Bytes → Buffer → Buffer
unfolding put
append bytes b = put bytes (ensure_writable (length bytes) b)
