-- ===== src/Buffer/Contents.antt =====
-- The buffer as the bytes that it holds: appending and retrieving are list operations, wherever the
-- cursors stand, and every access is inside the block.
use mini_rpc.Prelude.{
  ℕ, ◌+◌, ◌-◌, ◌≤◌, ◌≡◌, refl, sym, ap, ◌∙◌, [], ◌++◌, inl, inr, arith, leb, leb→le, ◌==◌, length,
  take, drop, length-take, length-drop, drop-drop, drop_all, Bool-cases, take-take, ==_iff,
}
use mini_rpc.Io.{Bytes}
use mini_rpc.Buffer.{
  Buffer, make, readable_bytes, writable_bytes, peek, copy, retrieve, compact, grow,
  ensure_writable, put, append,
}
use mini_rpc.Buffer.Memory.{length-copy, drop-take, window-copy, take-resize, length-resize}

pub record IsValid (b : Buffer) : Type 0 where
  pub ordered : b.read_index ≤ b.write_index
  pub inside : b.write_index ≤ length b.storage

-- The bytes between the cursors.
abbrev pub contents : Buffer → Bytes
contents b = drop b.read_index (take b.write_index b.storage)

pub length-contents : (b : Buffer) → IsValid b → length (contents b) ≡ readable_bytes b
length-contents b v = omega (
  arith,
  length-drop b.read_index (take b.write_index b.storage),
  length-take b.write_index b.storage,
)

-- What the parser reads behind `peek()`, up to the readable bytes, is the contents.
pub take-peek :
    (n : ℕ) (b : Buffer) → IsValid b → n ≤ readable_bytes b → take n (peek b) ≡ take n (contents b)
take-peek n b v h =
    rw (drop-take b.read_index b.write_index b.storage)
      (sym (take-take n (b.write_index - b.read_index) (drop b.read_index b.storage) h))

-- A buffer that is made is valid and empty.
pub make-empty : (n : ℕ) → IsValid (make n) × (contents (make n) ≡ [])
unfolding make
make-empty n = (record { ordered = omega arith; inside = omega arith }, refl)

-- On a buffer whose cursors are in order and inside the block, `retrieve` drops as many bytes as it
-- is told, if they are there, from the front, and keeps the cursors so.
pub retrieve_lem :
    (n : ℕ) (b : Buffer)
    → IsValid b
    → n ≤ readable_bytes b
    → IsValid (retrieve n b) × (contents (retrieve n b) ≡ drop n (contents b))
unfolding retrieve
retrieve_lem n b v h = elim (Bool-cases (b.read_index + n == b.write_index)) [
  | inl e ↦ rw e (
    record { ordered = omega arith; inside = omega arith },
    sym (
        drop_all n (contents b)
          (omega (arith, length-contents b v, (==_iff (b.read_index + n) b.write_index).0 e))),
  )
  | inr e ↦ rw e (
    record { ordered = omega arith; inside = v.inside },
    sym (drop-drop n b.read_index (take b.write_index b.storage)),
  )
]

moved :
    (m : Bytes) (r w : ℕ)
    → r ≤ w
    → w ≤ length m
    → take (w - r) (copy m 0 (take (w - r) (drop r m))) ≡ drop r (take w m)
moved m r w hr hw =
    let xs : Bytes = take (w - r) (drop r m) in
    let len : w - r ≡ 0 + length xs =
      omega (arith, length-take (w - r) (drop r m), length-drop r m) in
    ap (λ k. take k (copy m 0 xs)) len
    ∙ window-copy m 0 0 xs (omega arith) (omega (arith, len))
    ∙ sym (drop-take r w m)

compact_lem :
    (b : Buffer)
    → IsValid b
    → IsValid (compact b)
      × (contents (compact b) ≡ contents b)
      × (length (compact b).storage ≡ length b.storage)
      × (readable_bytes (compact b) ≡ readable_bytes b)
unfolding compact
compact_lem b v = ground (
  arith,
  moved b.storage b.read_index b.write_index v.ordered v.inside,
  length-copy b.storage 0 (take (readable_bytes b) (peek b)),
  drop_all b.read_index (take b.write_index b.storage),
  length-take b.write_index b.storage,
)

grow_lem :
    (len : ℕ) (b : Buffer)
    → IsValid b
    → IsValid (grow len b)
      × (contents (grow len b) ≡ contents b)
      × (len ≤ writable_bytes (grow len b))
unfolding grow
grow_lem len b v = ground (
  arith,
  take-resize b.storage b.write_index (b.write_index + len) v.inside,
  length-resize b.storage (b.write_index + len),
)

put_lem :
    (bytes : Bytes) (b : Buffer)
    → IsValid b
    → length bytes ≤ writable_bytes b
    → IsValid (put bytes b) × (contents (put bytes b) ≡ contents b ++ bytes)
unfolding put
put_lem bytes b v h = (
  record {
    ordered = omega (arith, v.ordered);
    inside = omega (arith, v.inside, length-copy b.storage b.write_index bytes);
  },
  window-copy b.storage b.read_index b.write_index bytes v.ordered (omega (arith, v.inside)),
)

-- On a buffer whose cursors are in order and inside the block, the next `len` bytes fall inside the
-- block after `ensure_writable`, and no byte was lost.
pub ensure_writable_lem :
    (len : ℕ) (b : Buffer)
    → IsValid b
    → IsValid (ensure_writable len b)
      × (contents (ensure_writable len b) ≡ contents b)
      × (len ≤ writable_bytes (ensure_writable len b))
unfolding ensure_writable
ensure_writable_lem len b v = elim (Bool-cases (leb len (writable_bytes b))) [
  | inl e ↦ rw e (v, refl, leb→le _ _ e)
  | inr e ↦
      let (v', same, len', rest) = compact_lem b v in
      let (w, kept, room) = grow_lem len (compact b) v' in rw e (w, kept ∙ same, room)
]

-- On a buffer whose cursors are in order and inside the block, `append` adds the new bytes at the
-- end, and keeps the cursors so.
pub append_lem :
    (bytes : Bytes) (b : Buffer)
    → IsValid b
    → IsValid (append bytes b) × (contents (append bytes b) ≡ contents b ++ bytes)
unfolding append
append_lem bytes b v =
    let (w, kept, room) = ensure_writable_lem (length bytes) b v in
    let (w', added) = put_lem bytes (ensure_writable (length bytes) b) w room in
    (w', added ∙ ap (λ c. c ++ bytes) kept)
