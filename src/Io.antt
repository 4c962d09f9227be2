-- ===== src/Io.antt =====
-- What the socket code sees of the operating system: the results of its calls, in order.
-- Reading and writing are actions over the results that are still to come.
pub mod Decimal
use Prim.Native.String.{◌++◌ as str_append}
use mini_rpc.Prelude.{
  ℕ, zero, suc, ◌/◌, ◌%◌, String, Option, none, some, Bool, true, false, List, ◌≡◌, refl, ltb,
  if◌then◌else◌, length,
}

abbrev pub Bytes : Type 0
Bytes = List ℕ

-- `errno`, as far as the code tells values apart; `other` carries the text of `std::strerror`.
pub data Errno : Type 0 where
  eintr eagain : Errno
  other : String → Errno

abbrev pub strerror : Errno → String
strerror eintr = "Interrupted system call"
strerror eagain = "Resource temporarily unavailable"
strerror (other s) = s

-- A result of `::recv`: bytes (rc > 0), an orderly end (rc == 0), or a failure.
pub data Recv : Type 0 where
  got : Bytes → Recv
  eof : Recv
  failed : Errno → Recv

-- A result of `::send`: the number of bytes that the kernel took, or a failure.
pub data Send : Type 0 where
  took : ℕ → Send
  refused : Errno → Send

-- How a call ends: with a value, with `false` and an `*error_msg`, or not yet, when the results run
-- out before the call returns.
pub data Outcome (A : Type 0) : Type 0 where
  ok : A → Outcome A
  err : String → Outcome A
  waiting : Outcome A

abbrev pub Action : Type 0 → Type 0 → Type 0
Action S A = S → Outcome A × S

abbrev pub continue : {S A B : Type 0} → (A → Action S B) → Outcome A × S → Outcome B × S
continue f (ok a, s) = f a s
continue f (err e, s) = (err e, s)
continue f (waiting, s) = (waiting, s)

infixl 5 ◌>>=◌ ◌>>◌
abbrev pub ◌>>=◌ : {S A B : Type 0} → Action S A → (A → Action S B) → Action S B
◌>>=◌ m f s = continue f (m s)

abbrev pub ◌>>◌ : {S B : Type 0} → Action S (Unit {0}) → Action S B → Action S B
◌>>◌ m k = m >>= λ _. k

abbrev pub return : {S A : Type 0} → A → Action S A
return a s = (ok a, s)

abbrev pub fail : {S A : Type 0} → String → Action S A
fail e s = (err e, s)

abbrev pub or_fail : {S A : Type 0} → Option A → String → Action S A
or_fail none e = fail e
or_fail (some a) e = return a

-- `if (bad) { *error_msg = e; return false; }`
abbrev pub refuse_if : {S : Type 0} → Bool → String → Action S (Unit {0})
refuse_if true e = fail e
refuse_if false e = return tt

-- A sequence that ends well: its first part ended well, and the rest ran from where that stopped.
pub continue-ok :
    {S A B : Type 0} (f : A → Action S B) (r : Outcome A × S) (b : B)
    → (continue f r).0 ≡ ok b
    → (a : A) × (r.0 ≡ ok a) × (continue f r ≡ f a r.1)
continue-ok f (ok a, s) b h = (a, refl, refl)
continue-ok f (err e, s) b h = cc
continue-ok f (waiting, s) b h = cc

-- `std::to_string`: decimal, by the number itself as fuel.
abbrev pub digit : ℕ → String
digit zero = "0"
digit (suc zero) = "1"
digit (suc (suc zero)) = "2"
digit (suc (suc (suc zero))) = "3"
digit (suc (suc (suc (suc zero)))) = "4"
digit (suc (suc (suc (suc (suc zero))))) = "5"
digit (suc (suc (suc (suc (suc (suc zero)))))) = "6"
digit (suc (suc (suc (suc (suc (suc (suc zero))))))) = "7"
digit (suc (suc (suc (suc (suc (suc (suc (suc zero)))))))) = "8"
digit _ = "9"

pub decimal : ℕ → ℕ → String
decimal zero n = ""
decimal (suc fuel) n =
    let rest = decimal fuel (n / 10) in
    if ltb n 10 then digit n else str_append rest (digit (n % 10))

unfoldable pub to_string : ℕ → String
unfolding decimal
to_string n = decimal (suc n) n

-- What a protobuf message type offers: generated code, taken as it is documented.
pub record Protobuf (A : Type 0) : Type 0 where
  pub byte_size : A → ℕ
  pub serialize : A → Option Bytes
  pub parse : Bytes → Option A

-- `SerializeToArray` fills `ByteSizeLong` bytes, and `ParseFromArray` reads them back.
pub record IsLawful {A : Type 0} (p : Protobuf A) : Type 0 where
  pub size : (m : A) (b : Bytes) → p.serialize m ≡ some b → length b ≡ p.byte_size m
  pub read_back : (m : A) (b : Bytes) → p.serialize m ≡ some b → p.parse b ≡ some m
