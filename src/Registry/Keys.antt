-- ===== src/Registry/Keys.antt =====
-- When two methods share a key.
use Prim.Native.Char.{Char, code}
use Prim.Native.String.{◌++◌ as str_append}
use text.Mathlib.TextLemmas.{nil-append, cons-append, append_assoc as str_append_assoc}
use mathlib.Core.Path.{ap₂}
use mini_rpc.Prelude.{◌≢◌, ◌≡◌, refl, sym, ap, ◌∙◌, String}
use mini_rpc.Registry.{build_key}

-- The text has no dot.
abbrev pub IsPlain : String → Type 0
IsPlain String.[] = Unit {0}
IsPlain (String.◌∷◌ c s) = (code c ≢ b'.') × IsPlain s

abbrev head_or : Char → String → Char
head_or d String.[] = d
head_or d (String.◌∷◌ c s) = c

abbrev tail : String → String
tail String.[] = ""
tail (String.◌∷◌ c s) = s

abbrev dot : Char
dot = "."

key_nil : (m : String) → build_key "" m ≡ String.◌∷◌ dot m
unfolding build_key
key_nil m =
    nil-append (str_append "." m) ∙ cons-append dot "" m ∙ ap (String.◌∷◌ dot) (nil-append m)

key_cons : (c : Char) (s m : String) → build_key (String.◌∷◌ c s) m ≡ String.◌∷◌ c (build_key s m)
unfolding build_key
key_cons c s m = cons-append c s (str_append "." m)

-- Where the services' names have no dot, a key stands for one service and method only.
pub build_key_injective :
    (s t m n : String) → IsPlain s → IsPlain t → build_key s m ≡ build_key t n → (s ≡ t) × (m ≡ n)
build_key_injective String.[] String.[] m n p q e =
    (refl, ap tail (sym (key_nil m) ∙ e ∙ key_nil n))
build_key_injective String.[] (String.◌∷◌ d t) m n p q e =
    absurd (q.0 (sym (ap (λ x. code (head_or d x)) (sym (key_nil m) ∙ e ∙ key_cons d t n))))
build_key_injective (String.◌∷◌ c s) String.[] m n p q e =
    absurd (p.0 (ap (λ x. code (head_or c x)) (sym (key_cons c s m) ∙ e ∙ key_nil n)))
build_key_injective (String.◌∷◌ c s) (String.◌∷◌ d t) m n p q e =
    let e' = sym (key_cons c s m) ∙ e ∙ key_cons d t n in
    let (rest, same) = build_key_injective s t m n p.1 q.1 (ap tail e') in
    (ap₂ String.◌∷◌ (ap (head_or c) e') rest, same)

-- A dot in the service's name moves over to the method's.
pub build_key_shift : (a b c : String) → build_key (build_key a b) c ≡ build_key a (build_key b c)
unfolding build_key
build_key_shift a b c =
    str_append_assoc a (str_append "." b) (str_append "." c)
    ∙ ap (str_append a) (str_append_assoc "." b (str_append "." c))
