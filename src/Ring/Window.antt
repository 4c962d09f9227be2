-- ===== src/Ring/Window.antt =====
-- Positions less than a capacity apart lie in different slots.
use native.Mathlib.Nat.{div-add-mod, add-mod_right}
use mini_rpc.Prelude.{
  ap, ℕ, ◌+◌, ◌*◌, ◌/◌, ◌%◌, ◌≤◌, ◌<◌, ◌≡◌, ◌⊎◌, inl, inr, arith, Bool-cases, ltb,
}

mul_gap : (n a b : ℕ) → a < b → n * a + n ≤ n * b
mul_gap n a b h = grind arith

split : (a b : ℕ) → (a < b) ⊎ ((b < a) ⊎ (a ≡ b))
split a b = elim (Bool-cases (ltb a b)) [
  | inl less ↦ inl (ground (arith, less))
  | inr more ↦ elim (Bool-cases (ltb b a)) [
    | inl above ↦ inr (inl (ground (arith, above)))
    | inr same ↦ inr (inr (ground (arith, more, same)))
  ]
]

pub window_inj : (n d p q : ℕ) → d ≤ p → p < d + n → d ≤ q → q < d + n → p % n ≡ q % n → p ≡ q
window_inj n d p q lp hp lq hq e = elim (split (p / n) (q / n)) [
  | inl low ↦
      absurd (omega (arith, mul_gap n (p / n) (q / n) low, div-add-mod p n, div-add-mod q n, e))
  | inr (inl high) ↦
      absurd (omega (arith, mul_gap n (q / n) (p / n) high, div-add-mod p n, div-add-mod q n, e))
  | inr (inr same) ↦ omega (arith, ap (λ (k : ℕ). n * k) same, div-add-mod p n, div-add-mod q n, e)
]

pub wrap_around : (n p : ℕ) → (p + n) % n ≡ p % n
wrap_around n p = add-mod_right p n
