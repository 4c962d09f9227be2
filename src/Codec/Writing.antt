-- ===== src/Codec/Writing.antt =====
-- `Codec::WriteN` and `Codec::WriteMessage`: what reaches the wire.
use mini_rpc.Prelude.{
  ℕ, suc, ◌+◌, ◌≡◌, refl, ap, sym, ◌∙◌, List, [], ◌∷◌, ◌++◌, true, some, arith, length, take, drop,
  length-drop, take-append-drop, append-nil, append_assoc, Bool-cases, inl, inr,
}
use mini_rpc.Io.{◌>>◌, continue-ok, Bytes, Send, took, refused, eintr, eagain, other, ok, Protobuf}
use mini_rpc.Codec.{Out, write_loop, write_n, htonl, write_message, is_bad_length}

-- The results take exactly this many bytes, at least one at a time, with signals before some.
pub data Accepts : List Send → ℕ → Type 0 where
  done : Accepts [] 0
  interrupted : {rs : List Send} {n : ℕ} → Accepts rs (suc n) → Accepts (refused eintr ∷ rs) (suc n)
  part :
      {rs : List Send} {n m : ℕ} (k : ℕ)
      → m ≡ suc k + n
      → Accepts rs n
      → Accepts (took (suc k) ∷ rs) m

rejoin : (wire : Bytes) (n : ℕ) (xs : Bytes) → (wire ++ take n xs) ++ drop n xs ≡ wire ++ xs
rejoin wire n xs =
    append_assoc wire (take n xs) (drop n xs) ∙ ap (◌++◌ wire) (take-append-drop n xs)

write_loop-Accepts :
    {rs : List Send} {n : ℕ}
    → Accepts rs n
    → (buffer : Bytes) → n ≡ length buffer
    → (rest : List Send) (wire : Bytes)
    → write_loop buffer (rs ++ rest) wire ≡ (ok tt, record { sends = rest; wire = wire ++ buffer })
unfolding write_loop
write_loop-Accepts done [] e rest wire =
    ap (λ w. (ok tt, record { sends = rest; wire = w })) (sym (append-nil wire))
write_loop-Accepts done (b ∷ bs) e rest wire = absurd (omega arith)
write_loop-Accepts (interrupted a) [] e rest wire = absurd (omega arith)
write_loop-Accepts (interrupted a) (b ∷ bs) e rest wire = write_loop-Accepts a (b ∷ bs) e rest wire
write_loop-Accepts (part k s a) [] e rest wire = absurd (omega arith)
write_loop-Accepts (part k s a) (b ∷ bs) e rest wire =
    write_loop-Accepts a (drop k bs) (omega (arith, length-drop k bs)) rest
      (wire ++ take (suc k) (b ∷ bs))
    ∙ ap (λ w. (ok tt, record { sends = rest; wire = w })) (rejoin wire (suc k) (b ∷ bs))

-- Where the kernel accepts the whole buffer, in pieces and between interruptions, `WriteN` puts it
-- on the wire behind what was there, and leaves the later results.
pub write_n-Accepts :
    {rs : List Send} (buffer : Bytes)
    → Accepts rs (length buffer)
    → (rest : List Send) (wire : Bytes)
    → write_n buffer (record { sends = rs ++ rest; wire = wire })
      ≡ (ok tt, record { sends = rest; wire = wire ++ buffer })
unfolding write_n
write_n-Accepts buffer a rest wire = write_loop-Accepts a buffer refl rest wire

-- Whatever the kernel answers, a loop that ends well has put exactly the buffer on the wire.
write_loop-ok :
    (rs : List Send) (buffer wire : Bytes)
    → (write_loop buffer rs wire).0 ≡ ok tt
    → (write_loop buffer rs wire).1.wire ≡ wire ++ buffer
unfolding write_loop
write_loop-ok rs [] wire h = sym (append-nil wire)
write_loop-ok [] (b ∷ bs) wire h = cc
write_loop-ok (took n ∷ rs) (b ∷ bs) wire h =
    write_loop-ok rs (drop n (b ∷ bs)) (wire ++ take n (b ∷ bs)) h ∙ rejoin wire n (b ∷ bs)
write_loop-ok (refused eintr ∷ rs) (b ∷ bs) wire h = write_loop-ok rs (b ∷ bs) wire h
write_loop-ok (refused eagain ∷ rs) (b ∷ bs) wire h = cc
write_loop-ok (refused (other s) ∷ rs) (b ∷ bs) wire h = cc

pub write_n-ok :
    (buffer : Bytes) (o : Out)
    → (write_n buffer o).0 ≡ ok tt
    → (write_n buffer o).1.wire ≡ o.wire ++ buffer
unfolding write_n
write_n-ok buffer o h = write_loop-ok o.sends buffer o.wire h

write_two :
    (xs ys : Bytes) (o : Out)
    → ((write_n xs >> write_n ys) o).0 ≡ ok tt
    → ((write_n xs >> write_n ys) o).1.wire ≡ o.wire ++ (xs ++ ys)
write_two xs ys o h =
    let (u, first, second) = continue-ok (λ _. write_n ys) (write_n xs o) tt h in
    ap (λ r. r.1.wire) second
    ∙ write_n-ok ys (write_n xs o).1 (sym (ap (λ r. r.0) second) ∙ h)
    ∙ ap (λ w. w ++ ys) (write_n-ok xs o first)
    ∙ append_assoc o.wire xs ys

module _ {A : Type 0} (p : Protobuf A) where
  -- A message goes out as its length in network order and then its body, and nothing else.
  pub write_message-ok :
      (m : A) (body : Bytes) (o : Out)
      → p.serialize m ≡ some body
      → (write_message p m o).0 ≡ ok tt
      → (write_message p m o).1.wire ≡ o.wire ++ (htonl (p.byte_size m) ++ body)
  unfolding write_message
  write_message-ok m body o s h = elim (Bool-cases (is_bad_length (p.byte_size m))) [
    | inl bad ↦ absurd (refused_size bad)
    | inr fine ↦ rw (fine, s) (write_two (htonl (p.byte_size m)) body o (rw (fine, s) at h))
  ]
    where
      refused_size : is_bad_length (p.byte_size m) ≡ true → ⊥
      refused_size bad = cc (rw bad at h)
