-- ===== src/Prelude/Assoc.antt =====
-- Association lists under text keys: what the program keeps in an `unordered_map`.
use Prim.Native.Nat.{suc}
use Prim.Native.String.{String}
use mathlib.Core.Path.{◌≡◌, refl}
use mathlib.Core.Option.{Option, none, some}
use mathlib.Core.List.{List, [], ◌∷◌}
use native.Mathlib.Omega.{arith}
use text.Mathlib.Text.{◌==◌ as str_eq}
use text.Mathlib.TextEquality.{eq_iff}
use mini_rpc.Prelude.Tests.{if◌then◌else◌}
use mini_rpc.Prelude.Lists.{length}

module _ {ℓ} {V : Type ℓ} where
  abbrev pub lookup : String → List (String × V) → Option V
  lookup k [] = none
  lookup k ((j, v) ∷ m) = if str_eq j k then some v else lookup k m

  -- Writes the value of a key that is there.
  abbrev pub update : String → V → List (String × V) → List (String × V)
  update k v [] = []
  update k v ((j, w) ∷ m) = if str_eq j k then (j, v) ∷ m else (j, w) ∷ update k v m

  abbrev pub erase : String → List (String × V) → List (String × V)
  erase k [] = []
  erase k ((j, w) ∷ m) = if str_eq j k then m else (j, w) ∷ erase k m

  -- No key stands twice.
  abbrev pub IsUnique : List (String × V) → Type ℓ
  IsUnique [] = Unit
  IsUnique ((j, v) ∷ m) = (lookup j m ≡ none) × IsUnique m

module _ {ℓ} {V : Type ℓ} where
  pub lookup-update :
      (k j : String) (v w : V) (m : List (String × V))
      → lookup k m ≡ some w
      → lookup j (update k v m) ≡ (if str_eq k j then some v else lookup j m)
  lookup-update k j v w [] h = cc
  lookup-update k j v w ((i, u) ∷ m) h =
      ground (arith, eq_iff k j, eq_iff i k, eq_iff i j, lookup-update k j v w m)

  pub lookup-erase :
      (k j : String) (m : List (String × V))
      → IsUnique m
      → lookup j (erase k m) ≡ (if str_eq k j then none else lookup j m)
  lookup-erase k j [] u = ground arith
  lookup-erase k j ((i, v) ∷ m) u =
      ground (arith, eq_iff k j, eq_iff i k, eq_iff i j, lookup-erase k j m u.1, u.0)

  pub update-none :
      (k j : String) (v : V) (m : List (String × V))
      → lookup j m ≡ none
      → lookup j (update k v m) ≡ none
  update-none k j v [] h = refl
  update-none k j v ((i, u) ∷ m) h = ground (arith, eq_iff i j, eq_iff i k, update-none k j v m)

  pub erase-none :
      (k j : String) (m : List (String × V)) → lookup j m ≡ none → lookup j (erase k m) ≡ none
  erase-none k j [] h = refl
  erase-none k j ((i, u) ∷ m) h = ground (arith, eq_iff i j, eq_iff i k, erase-none k j m)

  pub update-IsUnique :
      (k : String) (v : V) (m : List (String × V)) → IsUnique m → IsUnique (update k v m)
  update-IsUnique k v [] u = u
  update-IsUnique k v ((j, w) ∷ m) u =
      ground (arith, update-IsUnique k v m u.1, update-none k j v m u.0)

  pub erase-IsUnique : (k : String) (m : List (String × V)) → IsUnique m → IsUnique (erase k m)
  erase-IsUnique k [] u = u
  erase-IsUnique k ((j, w) ∷ m) u = ground (arith, erase-IsUnique k m u.1, erase-none k j m u.0)

  pub length-update :
      (k : String) (v : V) (m : List (String × V)) → length (update k v m) ≡ length m
  length-update k v [] = refl
  length-update k v ((j, w) ∷ m) = ground (arith, length-update k v m)

  pub length-erase :
      (k : String) (w : V) (m : List (String × V))
      → lookup k m ≡ some w
      → length m ≡ suc (length (erase k m))
  length-erase k w [] h = cc
  length-erase k w ((j, u) ∷ m) h = ground (arith, length-erase k w m)
