-- ===== src/Io/Decimal.antt =====
-- Printed numbers differ, and begin with a digit.
use Prim.Native.String.append
use text.Mathlib.Text.{◌==◌ as str_eq}
use Prim.Native.Char.{code}
use Prim.Native.String.{◌++◌ as str_append}
use mini_rpc.Prelude.{
  ℕ, zero, suc, ◌+◌, ◌-◌, ◌*◌, ◌/◌, ◌%◌, ◌<◌, ◌≡◌, eq_iff, Bool, leb, ◌&&◌, refl, ap, sym, ◌∙◌,
  String, arith, true, false, ltb, Bool-cases, inl, inr, starts_with,
}
use mini_rpc.Io.{to_string, decimal, digit}

-- Reads digits behind those that gave `acc`.
abbrev read_from : ℕ → String → ℕ
read_from acc String.[] = acc
read_from acc (String.◌∷◌ c s) = read_from (acc * 10 + (code c - 48)) s

read_from-append :
    (acc : ℕ) (s t : String) → read_from acc (str_append s t) ≡ read_from (read_from acc s) t
read_from-append acc String.[] t = ap (read_from acc) (append.nil t)
read_from-append acc (String.◌∷◌ c s) t =
    ap (read_from acc) (append.cons c s t) ∙ read_from-append (acc * 10 + (code c - 48)) s t

read_digit : (acc n : ℕ) → n < 10 → read_from acc (digit n) ≡ acc * 10 + n
read_digit acc zero h = omega arith
read_digit acc (suc zero) h = omega arith
read_digit acc (suc (suc zero)) h = omega arith
read_digit acc (suc (suc (suc zero))) h = omega arith
read_digit acc (suc (suc (suc (suc zero)))) h = omega arith
read_digit acc (suc (suc (suc (suc (suc zero))))) h = omega arith
read_digit acc (suc (suc (suc (suc (suc (suc zero)))))) h = omega arith
read_digit acc (suc (suc (suc (suc (suc (suc (suc zero))))))) h = omega arith
read_digit acc (suc (suc (suc (suc (suc (suc (suc (suc zero)))))))) h = omega arith
read_digit acc (suc (suc (suc (suc (suc (suc (suc (suc (suc zero))))))))) h = omega arith
read_digit acc (suc (suc (suc (suc (suc (suc (suc (suc (suc (suc n)))))))))) h =
    absurd (omega arith)

read-decimal : (f n : ℕ) → n < f → read_from 0 (decimal f n) ≡ n
unfolding decimal
read-decimal zero n h = elim h [ ]
read-decimal (suc f) n h = elim (Bool-cases (ltb n 10)) [
  | inl small ↦ rw small (read_digit 0 n (ground (arith, small)) ∙ omega arith)
  | inr big ↦ rw big (
      read_from-append 0 (decimal f (n / 10)) (digit (n % 10))
      ∙ ap (λ k. read_from k (digit (n % 10))) (read-decimal f (n / 10) (ground (arith, big)))
      ∙ read_digit (n / 10) (n % 10) (omega arith)
      ∙ omega arith)
]

pub to_string_inj : (m n : ℕ) → to_string m ≡ to_string n → m ≡ n
unfolding to_string
to_string_inj m n e =
    sym (read-decimal (suc m) m (omega arith))
    ∙ ap (read_from 0) e
    ∙ read-decimal (suc n) n (omega arith)

-- Whether a text begins with a digit.
abbrev leads : String → Bool
leads String.[] = false
leads (String.◌∷◌ c s) = leb 48 (code c) && leb (code c) 57

digit-leads : (n : ℕ) → leads (digit n) ≡ true
digit-leads zero = refl
digit-leads (suc zero) = refl
digit-leads (suc (suc zero)) = refl
digit-leads (suc (suc (suc zero))) = refl
digit-leads (suc (suc (suc (suc zero)))) = refl
digit-leads (suc (suc (suc (suc (suc zero))))) = refl
digit-leads (suc (suc (suc (suc (suc (suc zero)))))) = refl
digit-leads (suc (suc (suc (suc (suc (suc (suc zero))))))) = refl
digit-leads (suc (suc (suc (suc (suc (suc (suc (suc zero)))))))) = refl
digit-leads (suc (suc (suc (suc (suc (suc (suc (suc (suc n))))))))) = refl

append-leads : (s t : String) → leads s ≡ true → leads (str_append s t) ≡ true
append-leads String.[] t h = cc
append-leads (String.◌∷◌ c s) t h = ap leads (append.cons c s t) ∙ h

decimal-leads : (f n : ℕ) → n < f → leads (decimal f n) ≡ true
unfolding decimal
decimal-leads zero n h = elim h [ ]
decimal-leads (suc f) n h = elim (Bool-cases (ltb n 10)) [
  | inl small ↦ rw small (digit-leads n)
  | inr big ↦ rw big (
      append-leads (decimal f (n / 10)) (digit (n % 10))
        (decimal-leads f (n / 10) (ground (arith, big))))
]

leads_nonempty : (s : String) → leads s ≡ true → str_eq s "" ≡ false
leads_nonempty s h = elim (Bool-cases (str_eq s "")) [
  | inl same ↦ let clash : true ≡ false = sym h ∙ ap leads ((eq_iff s "").0 same) in cc
  | inr apart ↦ apart
]

leads_apart : (s : String) → leads s ≡ true → (str_eq s "" ≡ false) × (starts_with "hb_" s ≡ false)
leads_apart String.[] h = cc
leads_apart (String.◌∷◌ c s) h = (leads_nonempty (String.◌∷◌ c s) h, ground (arith, h))

-- A printed number is no empty text, and begins no heartbeat's id.
pub to_string-apart :
    (n : ℕ) → (str_eq (to_string n) "" ≡ false) × (starts_with "hb_" (to_string n) ≡ false)
unfolding to_string
to_string-apart n = leads_apart (decimal (suc n) n) (decimal-leads (suc n) n (omega arith))
