-- ===== src/Ring/Placing.antt =====
-- What the others may rely on when one producer has moved, and the small facts on the way.
use mini_rpc.Prelude.{
  ℕ, zero, suc, ◌+◌, ◌<◌, ◌≡◌, ◌⊎◌, inl, inr, refl, ap, ◌∙◌, some, true, false, List, [], ◌∷◌, ◌++◌,
  arith, length, get_elem?, take, map, ◌==◌, ltb, Bool-cases,
}
use mini_rpc.Ring.{
  Ring, slot_at, Producer, idle, loading, loaded, checked, reserved, constructed, returned, nothing,
  element, try_pop_one, begin, place,
}
use mini_rpc.Ring.Threads.{IsThread, WorksOn, IsRing, popped}

pub works_below :
    {A : Type 0} (n p : ℕ) (q : Ring A) (claimed : List A) (t : Producer A)
    → IsThread n q claimed t
    → WorksOn p t
    → p < q.enqueue_pos
works_below n p q claimed (reserved pos v) h w = omega (arith, h, w)
works_below n p q claimed (constructed pos v) h w = omega (arith, h, w)
works_below n p q claimed idle h w = elim w [ ]
works_below n p q claimed (loading v) h w = elim w [ ]
works_below n p q claimed (loaded pos v) h w = elim w [ ]
works_below n p q claimed (checked pos v) h w = elim w [ ]
works_below n p q claimed (returned b) h w = elim w [ ]

-- Of one producer's new state: it works on nothing that another works on.
abbrev pub Fresh : {A : Type 0} → ℕ → Producer A → (ℕ → Producer A) → Type 0
Fresh i t ps = (p : ℕ) → WorksOn p t → WorksOn p (ps i) ⊎ ((j : ℕ) → WorksOn p (ps j) → ⊥)

module _ {A : Type 0} (n : ℕ) (i : ℕ) (t : Producer A) (ps : ℕ → Producer A) where
  pub placed-threads :
      (q : Ring A) (claimed : List A)
      → IsThread n q claimed t
      → ((j : ℕ) → (j ≡ i → ⊥) → IsThread n q claimed (ps j))
      → (j : ℕ) → IsThread n q claimed (place i t ps j)
  unfolding place
  placed-threads q claimed mine others j = elim (Bool-cases (j == i)) [
    | inl same ↦ rw same mine
    | inr other ↦ rw other (others j (λ e. ground (arith, e, other)))
  ]

  pub placed-apart :
      ((a b p : ℕ) → WorksOn p (ps a) → WorksOn p (ps b) → a ≡ b)
      → Fresh i t ps
      → (a b p : ℕ) → WorksOn p (place i t ps a)
      → WorksOn p (place i t ps b)
      → a ≡ b
  unfolding place
  placed-apart apart fresh a b p wa wb = elim (Bool-cases (a == i)) [
    | inl ai ↦ elim (Bool-cases (b == i)) [
      | inl bi ↦ ground (arith, ai, bi)
      | inr bo ↦ elim (fresh p (rw ai at wa)) [
        | inl was ↦ ground (arith, ai, apart i b p was (rw bo at wb))
        | inr nobody ↦ absurd (nobody b (rw bo at wb))
      ]
    ]
    | inr ao ↦ elim (Bool-cases (b == i)) [
      | inl bi ↦ elim (fresh p (rw bi at wb)) [
        | inl was ↦ ground (arith, bi, apart a i p (rw ao at wa) was)
        | inr nobody ↦ absurd (nobody a (rw ao at wa))
      ]
      | inr bo ↦ apart a b p (rw ao at wa) (rw bo at wb)
    ]
  ]

pub begin-IsThread :
    {A : Type 0} (n : ℕ) (w : A) (q : Ring A) (claimed : List A) (t : Producer A)
    → IsThread n q claimed t
    → IsThread n q claimed (begin w t)
begin-IsThread n w q claimed idle h = tt
begin-IsThread n w q claimed (loading v) h = tt
begin-IsThread n w q claimed (loaded pos v) h = h
begin-IsThread n w q claimed (checked pos v) h = h
begin-IsThread n w q claimed (reserved pos v) h = h
begin-IsThread n w q claimed (constructed pos v) h = h
begin-IsThread n w q claimed (returned b) h = tt

pub begin-WorksOn :
    {A : Type 0} (w : A) (p : ℕ) (t : Producer A) → WorksOn p (begin w t) → WorksOn p t
begin-WorksOn w p idle h = h
begin-WorksOn w p (loading v) h = h
begin-WorksOn w p (loaded pos v) h = h
begin-WorksOn w p (checked pos v) h = h
begin-WorksOn w p (reserved pos v) h = h
begin-WorksOn w p (constructed pos v) h = h
begin-WorksOn w p (returned b) h = elim h [ ]

take-suc :
    {A : Type 0} (xs : List A) (i : ℕ)
    → i < length xs
    → map some (take i xs) ++ (get_elem? xs i ∷ []) ≡ map some (take (suc i) xs)
take-suc [] i h = elim h [ ]
take-suc (x ∷ xs) zero h = refl
take-suc (x ∷ xs) (suc i) h = ap (◌∷◌ (some x)) (take-suc xs i (omega arith))

pub take-next :
    {A : Type 0} (xs : List A) (i : ℕ)
    → i < length xs
    → map some (take i xs) ++ (get_elem? xs i ∷ []) ≡ map some (take (i + 1) xs)
take-next xs i h =
    take-suc xs i h ∙ ap (λ k. map some (take k xs)) (let e : suc i ≡ i + 1 = omega arith in e)

pub pop_unready :
    {A : Type 0} (n : ℕ) (q : Ring A)
    → ltb (slot_at n q.dequeue_pos q).sequence (q.dequeue_pos + 1) ≡ true
    → try_pop_one n q ≡ (nothing, q)
unfolding try_pop_one
pop_unready n q h = rw h refl

pub pop_ready :
    {A : Type 0} (n : ℕ) (q : Ring A) (claimed : List A) (good : IsRing n q claimed)
    → ltb (slot_at n q.dequeue_pos q).sequence (q.dequeue_pos + 1) ≡ false
    → try_pop_one n q ≡ (element (slot_at n q.dequeue_pos q).storage, popped n q claimed good)
unfolding try_pop_one
pop_ready n q claimed good h = rw h refl
