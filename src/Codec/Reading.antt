-- ===== src/Codec/Reading.antt =====
-- `Codec::ReadN` and `Codec::ReadMessage` on a stream that the kernel hands over in pieces.
use mini_rpc.Prelude.{
  ℕ, zero, suc, ◌-◌, ◌≤◌, ◌<◌, ◌≡◌, refl, ap, List, [], ◌∷◌, ◌++◌, false, some, arith, length,
  length-append,
}
use mini_rpc.Io.{Bytes, Recv, got, eof, failed, eintr, ok, err, Protobuf}
use mini_rpc.Codec.{prepend, read_n, htonl, ntohl, read_message, max_frame_size, is_bad_length}

-- The results deliver exactly these bytes, in pieces that are not empty, with signals before some.
pub data Delivers : List Recv → Bytes → Type 0 where
  done : Delivers [] []
  interrupted :
      {rs : List Recv} {b : ℕ} {bs : Bytes}
      → Delivers rs (b ∷ bs)
      → Delivers (failed eintr ∷ rs) (b ∷ bs)
  piece :
      {rs : List Recv} {bs : Bytes} (x : ℕ) (xs : Bytes)
      → Delivers rs bs
      → Delivers (got (x ∷ xs) ∷ rs) (x ∷ (xs ++ bs))

-- A loop that is given all the bytes that it wants returns them, and leaves the later results.
pub read_n-Delivers :
    {rs : List Recv} {bs : Bytes}
    → Delivers rs bs
    → (rest : List Recv) → read_n (length bs) (rs ++ rest) ≡ (ok bs, rest)
unfolding read_n
read_n-Delivers done rest = refl
read_n-Delivers (interrupted d) rest = read_n-Delivers d rest
read_n-Delivers (piece {rs} {bs} x xs d) rest =
    let e : suc (length (xs ++ bs)) - suc (length xs) ≡ length bs =
      omega (arith, length-append xs bs) in
    rw e (ap (prepend (x ∷ xs)) (read_n-Delivers d rest))

-- A stream that ends early fails the read, whatever came before the end.
pub read_n-truncated :
    {rs : List Recv} {bs : Bytes} (n : ℕ)
    → Delivers rs bs
    → length bs < n
    → (rest : List Recv) → read_n n (rs ++ (eof ∷ rest)) ≡ (err "peer closed connection", rest)
unfolding read_n
read_n-truncated zero d h rest = elim h [ ]
read_n-truncated (suc n) done h rest = refl
read_n-truncated (suc n) (interrupted d) h rest = read_n-truncated (suc n) d h rest
read_n-truncated (suc n) (piece {rs} {bs} x xs d) h rest =
    ap (prepend (x ∷ xs))
      (read_n-truncated (suc n - suc (length xs)) d (omega (arith, length-append xs bs, h)) rest)

pub length-htonl : (n : ℕ) → length (htonl n) ≡ 4
unfolding htonl
length-htonl n = refl

-- `ntohl` undoes `htonl` on every 32-bit length.
pub ntohl-htonl : (n : ℕ) → n < 4294967296 → ntohl (htonl n) ≡ n
unfolding htonl ntohl
ntohl-htonl n h = omega arith

pub read_header :
    {hs : List Recv} {n : ℕ}
    → Delivers hs (htonl n)
    → n < 4294967296
    → (rest : List Recv) → read_n 4 (hs ++ rest) ≡ (ok (htonl n), rest)
unfolding htonl
read_header d h rest = read_n-Delivers d rest

module _ {A : Type 0} (p : Protobuf A) where
  -- A frame that arrives whole is read as its message, and nothing behind it is touched.
  pub read_message-Delivers :
      {hs bs : List Recv} {body : Bytes} {m : A}
      → Delivers hs (htonl (length body))
      → Delivers bs body
      → 0 < length body
      → length body ≤ max_frame_size
      → p.parse body ≡ some m
      → (rest : List Recv) → read_message p false (hs ++ (bs ++ rest)) ≡ (ok m, rest)
  unfolding read_message
  read_message-Delivers {hs} {bs} {body} hd bd pos small parsed rest =
      let fine : is_bad_length (length body) ≡ false = ground arith in
      rw (
        read_header hd (omega arith) (bs ++ rest),
        ntohl-htonl (length body) (omega arith),
        fine,
        read_n-Delivers bd rest,
        parsed,
      )
