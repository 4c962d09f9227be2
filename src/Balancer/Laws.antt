-- ===== src/Balancer/Laws.antt =====
-- What the balancers promise the pool: an index in range, and the least loaded of the candidates.
use mini_rpc.Prelude.{
  ℕ, zero, suc, ◌+◌, ◌-◌, ◌%◌, ◌==◌, ◌≤◌, ◌<◌, ◌≡◌, refl, ap, ◌∙◌, ltb, true, List, [], ◌∷◌, ◌++◌,
  length, if◌then◌else◌, arith, Bool-cases, inl, inr, ◌⊎◌, ==_iff,
}
use mini_rpc.Balancer.{
  size_max, select_round_robin, min_inflight, ties, ties_again, or_else, first_of, tie_indices, at,
  select_least_inflight,
}

abbrev pub All : (ℕ → Type 0) → List ℕ → Type 0
All P [] = Unit {0}
All P (x ∷ xs) = P x × All P xs

pub mod_lt : (a n : ℕ) → 0 < n → a % n < n
mod_lt a n h = omega arith

pub All-map : {P Q : ℕ → Type 0} (xs : List ℕ) → ((x : ℕ) → P x → Q x) → All P xs → All Q xs
All-map [] f a = tt
All-map (x ∷ xs) f a = (f x a.0, All-map xs f a.1)

All-append : (P : ℕ → Type 0) (xs : List ℕ) (x : ℕ) → All P xs → P x → All P (xs ++ (x ∷ []))
All-append P [] x a h = (h, tt)
All-append P (y ∷ xs) x a h = (a.0, All-append P xs x a.1 h)

pub All-at : (P : ℕ → Type 0) (xs : List ℕ) (k : ℕ) → All P xs → k < length xs → P (at xs k)
All-at P [] k a h = absurd (omega (arith, h))
All-at P (x ∷ xs) zero a h = a.0
All-at P (x ∷ xs) (suc k) a h = All-at P xs k a.1 (omega (arith, h))

-- An index that is in range from `i` on, where the count is `m`.
abbrev IsTie : List ℕ → ℕ → ℕ → ℕ → Type 0
IsTie ns m i x = (i ≤ x) × ((x < i + length ns) × (at ns (x - i) ≡ m))

IsTie-later : (n : ℕ) (ns : List ℕ) (m i x : ℕ) → IsTie ns m (suc i) x → IsTie (n ∷ ns) m i x
IsTie-later n ns m i x t =
    let e : x - i ≡ suc (x - suc i) = omega (arith, t.0) in
    (omega (arith, t.0), (omega (arith, t.1.0), ap (at (n ∷ ns)) e ∙ t.1.1))

ties-IsTie : (ns : List ℕ) (m i : ℕ) → All (IsTie ns m i) (ties ns m i)
unfolding ties
ties-IsTie [] m i = tt
ties-IsTie (n ∷ ns) m i =
    let rest = All-map (ties ns m (suc i)) (IsTie-later n ns m i) (ties-IsTie ns m (suc i)) in
    elim (Bool-cases (n == m)) [
      | inl e ↦
          let z : i - i ≡ 0 = omega arith in
          rw e ((omega arith, (omega arith, ap (at (n ∷ ns)) z ∙ (==_iff n m).0 e)), rest)
      | inr e ↦ rw e rest
    ]

min_inflight-least :
    (ns : List ℕ) (m : ℕ) → (min_inflight ns m ≤ m) × All (λ n. min_inflight ns m ≤ n) ns
unfolding min_inflight
min_inflight-least [] m = (omega arith, tt)
min_inflight-least (n ∷ ns) m =
    let (le, all) = min_inflight-least ns (if ltb n m then n else m) in
    (ground (arith, le), (ground (arith, le), all))

ties-some :
    (ns : List ℕ) (m i : ℕ)
    → ((min_inflight ns m ≡ m) ⊎ (0 < length (ties ns (min_inflight ns m) i)))
unfolding min_inflight ties
ties-some [] m i = inl refl
ties-some (n ∷ ns) m i = ground (arith, ties-some ns (if ltb n m then n else m) (suc i))

-- With counts that fit in 64 bits, some candidate has the smallest.
tied-some :
    (ns : List ℕ)
    → All (λ n. n ≤ size_max) ns
    → 0 < length ns
    → 0 < length (ties ns (min_inflight ns size_max) 0)
unfolding min_inflight ties
tied-some [] fit h = absurd (omega (arith, h))
tied-some (n ∷ ns) fit h = elim (ties-some (n ∷ ns) size_max 0) [
  | inr k ↦ k
  | inl e ↦
      let least = (min_inflight-least (n ∷ ns) size_max).1.0 in
      let same : (n == min_inflight (n ∷ ns) size_max) ≡ true =
        (==_iff n (min_inflight (n ∷ ns) size_max)).1 (omega (arith, e, least, fit.0)) in
      rw same (omega arith)
]

ties_again-fits :
    (ns : List ℕ) (m i n : ℕ) (found : List ℕ)
    → All (λ x. x < n) found
    → i + length ns ≤ n
    → All (λ x. x < n) (ties_again ns m i found)
unfolding ties_again
ties_again-fits [] m i n found a h = a
ties_again-fits (k ∷ ns) m i n found a h = elim (Bool-cases (ltb k m)) [
  | inl e ↦ rw e (ties_again-fits ns k (suc i) n (i ∷ []) (omega (arith, h), tt) (omega (arith, h)))
  | inr e ↦ elim (Bool-cases (k == m)) [
    | inl e' ↦ rw e (
        rw e' (
          ties_again-fits ns m (suc i) n (found ++ (i ∷ []))
            (All-append (λ x. x < n) found i a (omega (arith, h))) (omega (arith, h))))
    | inr e' ↦ rw e (rw e' (ties_again-fits ns m (suc i) n found a (omega (arith, h))))
  ]
]

or_else-All : (P : ℕ → Type 0) (xs ys : List ℕ) → All P xs → All P ys → All P (or_else xs ys)
or_else-All P [] ys a b = b
or_else-All P (x ∷ xs) ys a b = a

or_else-left : (xs ys : List ℕ) → 0 < length xs → or_else xs ys ≡ xs
or_else-left [] ys h = absurd (omega (arith, h))
or_else-left (x ∷ xs) ys h = refl

length-or_else :
    (xs ys : List ℕ) → length ys ≤ length (or_else xs ys) ⊎ (0 < length (or_else xs ys))
length-or_else [] ys = inl (omega arith)
length-or_else (x ∷ xs) ys = inr (omega arith)

first_of-fits :
    (ns : List ℕ)
    → All (λ x. x < length ns) (first_of ns) × (0 < length ns → 0 < length (first_of ns))
first_of-fits [] = (tt, λ h. h)
first_of-fits (n ∷ ns) = ((omega arith, tt), λ h. omega arith)

tie_indices-fits :
    (first second third : List ℕ)
    → length second ≡ length third
    → All (λ x. x < length third) (tie_indices first second third)
      × (0 < length third → 0 < length (tie_indices first second third))
unfolding tie_indices
tie_indices-fits first second third e =
    let m : ℕ = min_inflight first size_max in
    let again : List ℕ = ties_again third size_max 0 [] in
    let below : (x : ℕ) → IsTie second m 0 x → x < length third = λ x t. omega (arith, t.1.0, e) in
    (
      or_else-All (λ x. x < length third) (ties second m 0) (or_else again (first_of third))
          (All-map (ties second m 0) below (ties-IsTie second m 0))
          (or_else-All (λ x. x < length third) again (first_of third)
            (ties_again-fits third size_max 0 (length third) [] tt (omega arith))
            (first_of-fits third).0),
      λ h. ground (
        arith,
        h,
        (first_of-fits third).1 h,
        length-or_else again (first_of third),
        length-or_else (ties second m 0) (or_else again (first_of third)),
      ),
    )

-- Whatever the passes read of the candidates while other threads change the counts, the index that
-- the least-inflight balancer returns is one of theirs, if there is any; and so is the round-robin
-- one.
pub select-fits :
    (first second third : List ℕ) (counter : ℕ)
    → length second ≡ length third
    → 0 < length third
    → ((select_least_inflight first second third counter).0 < length third)
      × ((select_round_robin (length third) counter).0 < length third)
unfolding select_least_inflight select_round_robin
select-fits first second third counter e h =
    let (fit, some_tie) = tie_indices-fits first second third e in
    let tied : List ℕ = tie_indices first second third in
    (
      All-at (λ x. x < length third) tied (counter % length tied) fit
          (mod_lt counter (length tied) (some_tie h)),
      mod_lt counter (length third) h,
    )

-- Where there are candidates and the three passes read the same counts of 64 bits, nobody has fewer
-- calls in flight than the candidate that the least-inflight balancer returns.
pub select_least_inflight-least :
    (counts : List ℕ) (counter : ℕ)
    → All (λ n. n ≤ size_max) counts
    → 0 < length counts
    → All (λ n. at counts (select_least_inflight counts counts counts counter).0 ≤ n) counts
unfolding select_least_inflight tie_indices
select_least_inflight-least counts counter fit h =
    let m : ℕ = min_inflight counts size_max in
    let tied : List ℕ = ties counts m 0 in
    let chosen =
      All-at (IsTie counts m 0) tied (counter % length tied) (ties-IsTie counts m 0)
        (mod_lt counter (length tied) (tied-some counts fit h)) in
    let x : ℕ = at tied (counter % length tied) in
    let is_x : at counts x ≡ m = ap (at counts) {x = x} {y = x - 0} (omega arith) ∙ chosen.1.1 in
    rw
      (or_else-left tied (or_else (ties_again counts size_max 0 []) (first_of counts))
        (tied-some counts fit h))
      (All-map counts (λ n le. omega (arith, is_x, le)) (min_inflight-least counts size_max).1)
