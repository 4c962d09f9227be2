-- ===== src/Pool/Tried.antt =====
-- Counting the channels that `RpcClientPool::Call` has tried.
use mini_rpc.Prelude.{
  ℕ, zero, suc, ◌+◌, ◌==◌, ◌≤◌, ◌<◌, ◌≡◌, ◌≢◌, refl, sym, ap, ◌∙◌, ltb, ◌||◌, true, false, List, [],
  ◌∷◌, ◌++◌, if◌then◌else◌, arith, Bool-cases, inl, inr, ==_iff,
}
use mini_rpc.Pool.{elem}

-- How often `i` was tried.
abbrev pub count : ℕ → List ℕ → ℕ
count i [] = 0
count i (x ∷ xs) = if i == x then suc (count i xs) else count i xs

-- How many of the first `n` were not tried.
abbrev pub free : ℕ → List ℕ → ℕ
free zero xs = 0
free (suc n) xs = if elem n xs then free n xs else suc (free n xs)

pub elem-append : (i x : ℕ) (xs : List ℕ) → elem i (xs ++ (x ∷ [])) ≡ (elem i xs || i == x)
elem-append i x [] = ground arith
elem-append i x (y ∷ xs) = ground (arith, elem-append i x xs)

pub count-append :
    (i x : ℕ) (xs : List ℕ) → count i (xs ++ (x ∷ [])) ≡ count i xs + (if i == x then 1 else 0)
count-append i x [] = ground arith
count-append i x (y ∷ xs) = ground (arith, count-append i x xs)

pub count-elem : (i : ℕ) (xs : List ℕ) → elem i xs ≡ ltb 0 (count i xs)
count-elem i [] = refl
count-elem i (x ∷ xs) = ground (arith, count-elem i xs)

pub free-nil : (n : ℕ) → free n [] ≡ n
free-nil zero = refl
free-nil (suc n) = ap suc (free-nil n)

free-append_out : (n x : ℕ) (xs : List ℕ) → n ≤ x → free n (xs ++ (x ∷ [])) ≡ free n xs
free-append_out zero x xs h = refl
free-append_out (suc n) x xs h =
    ground (arith, elem-append n x xs, free-append_out n x xs (omega (arith, h)))

pub free-append :
    (n x : ℕ) (xs : List ℕ) → x < n → elem x xs ≡ false → suc (free n (xs ++ (x ∷ []))) ≡ free n xs
free-append zero x xs h a = absurd (omega (arith, h))
free-append (suc n) x xs h a = elim (Bool-cases (n == x)) [
  | inl e ↦
      let e' = (==_iff n x).0 e in
      let a' : elem n xs ≡ false = ap (λ k. elem k xs) e' ∙ a in
      ground (arith, elem-append n x xs, free-append_out n x xs (omega (arith, e')), e, a')
  | inr e ↦
      let h' : x < n = ground (arith, h, e) in
      ground (arith, elem-append n x xs, free-append n x xs h' a, e)
]

pub free-some : (n : ℕ) (xs : List ℕ) → 0 < free n xs → (j : ℕ) × ((j < n) × (elem j xs ≡ false))
free-some zero xs h = absurd (omega (arith, h))
free-some (suc n) xs h = elim (Bool-cases (elem n xs)) [
  | inr e ↦ (n, (omega arith, e))
  | inl e ↦ let (j, found) = free-some n xs (rw e at h) in (j, (omega (arith, found.0), found.1))
]

pub free-none : (n j : ℕ) (xs : List ℕ) → free n xs ≡ 0 → j < n → elem j xs ≡ true
free-none zero j xs e h = absurd (omega (arith, h))
free-none (suc n) j xs e h = elim (Bool-cases (elem n xs)) [
  | inr f ↦ absurd (omega (arith, rw f at e))
  | inl f ↦ elim (Bool-cases (n == j)) [
    | inl same ↦ ap (λ k. elem k xs) (sym ((==_iff n j).0 same)) ∙ f
    | inr other ↦ free-none n j xs (rw f at e) (ground (arith, h, other))
  ]
]

pub count-append_new :
    (i j : ℕ) (xs : List ℕ) → elem i xs ≡ false → count j xs ≤ 1 → count j (xs ++ (i ∷ [])) ≤ 1
count-append_new i j xs a h = elim (Bool-cases (j == i)) [
  | inl e ↦
      let a' : elem j xs ≡ false = ap (λ k. elem k xs) ((==_iff j i).0 e) ∙ a in
      ground (arith, count-append j i xs, count-elem j xs, e, a')
  | inr e ↦ ground (arith, count-append j i xs, e, h)
]

pub elem-append_new :
    (i j : ℕ) (xs : List ℕ) → elem j (xs ++ (i ∷ [])) ≡ false → (elem j xs ≡ false) × (i ≢ j)
elem-append_new i j xs h = ground (arith, elem-append j i xs, h)
