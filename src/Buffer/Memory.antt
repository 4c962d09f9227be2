-- ===== src/Buffer/Memory.antt =====
-- Copies and cuts in a block of memory.
use mini_rpc.Prelude.{
  ℕ, zero, suc, ◌+◌, ◌-◌, ◌≤◌, ◌≡◌, refl, sym, ap, ◌∙◌, [], ◌∷◌, ◌++◌, arith, length, take, drop,
  replicate, length-append, length-take, length-replicate, take-append_of, drop-append_le,
  take-append_le, take-take, take-nil, append_assoc,
}
use mini_rpc.Io.{Bytes}
use mini_rpc.Buffer.{copy, resize}

pub copy-split :
    (m : Bytes) (at : ℕ) (xs : Bytes)
    → at + length xs ≤ length m
    → copy m at xs ≡ take at m ++ (xs ++ drop (at + length xs) m)
unfolding copy
copy-split [] zero [] h = refl
copy-split [] zero (x ∷ xs) h = absurd (omega arith)
copy-split [] (suc at) xs h = absurd (omega arith)
copy-split (y ∷ m) zero [] h = refl
copy-split (y ∷ m) zero (x ∷ xs) h =
    let e : zero + length xs ≡ length xs = omega arith in
    ap (◌∷◌ x) (copy-split m zero xs (omega arith) ∙ ap (λ k. xs ++ drop k m) e)
    ∙ ap (λ k. x ∷ (xs ++ drop k (y ∷ m)))
        (let f : suc (length xs) ≡ 0 + suc (length xs) = omega arith in f)
copy-split (y ∷ m) (suc at) xs h =
    ap (◌∷◌ y) (copy-split m at xs (omega arith))
    ∙ ap (λ k. y ∷ (take at m ++ (xs ++ drop k (y ∷ m))))
        (let f : suc (at + length xs) ≡ suc at + length xs = omega arith in f)

pub length-copy : (m : Bytes) (at : ℕ) (xs : Bytes) → length (copy m at xs) ≡ length m
unfolding copy
length-copy [] at xs = refl
length-copy (y ∷ m) zero [] = refl
length-copy (y ∷ m) zero (x ∷ xs) = ap suc (length-copy m zero xs)
length-copy (y ∷ m) (suc at) xs = ap suc (length-copy m at xs)

pub drop-take : (r w : ℕ) (m : Bytes) → drop r (take w m) ≡ take (w - r) (drop r m)
drop-take zero w m = ap (λ k. take k m) (omega arith)
drop-take (suc r) zero m =
    ap (λ k. take k (drop (suc r) m)) (let f : 0 ≡ 0 - suc r = omega arith in f)
drop-take (suc r) (suc w) [] = sym (take-nil (suc w - suc r))
drop-take (suc r) (suc w) (x ∷ m) = drop-take r w m ∙ ap (λ k. take k (drop r m)) (omega arith)

-- The bytes between the cursors, after a copy behind them.
pub window-copy :
    (m : Bytes) (r w : ℕ) (xs : Bytes)
    → r ≤ w
    → w + length xs ≤ length m
    → drop r (take (w + length xs) (copy m w xs)) ≡ drop r (take w m) ++ xs
window-copy m r w xs hr hw =
    rw
      (
        copy-split m w xs hw,
        ← append_assoc (take w m) xs (drop (w + length xs) m),
        take-append_of (w + length xs) (take w m ++ xs) (drop (w + length xs) m)
            (omega (arith, length-append (take w m) xs, length-take w m)),
      )
      (drop-append_le r (take w m) xs (omega (arith, length-take w m)))

pub take-resize : (m : Bytes) (w n : ℕ) → w ≤ length m → w ≤ n → take w (resize m n) ≡ take w m
take-resize m w n hm hn =
    take-append_le w (take n m) (replicate (n - length m) 0) (omega (arith, length-take n m))
    ∙ take-take w n m hn

pub length-resize : (m : Bytes) (n : ℕ) → length (resize m n) ≡ n
length-resize m n = omega (
  arith,
  length-append (take n m) (replicate (n - length m) 0),
  length-take n m,
  length-replicate {A = ℕ} (n - length m) 0,
)
