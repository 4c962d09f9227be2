-- ===== src/Ring/Reachable.antt =====
-- The shape of the ring in every state that can be reached.
use mini_rpc.Ring.Steps.{consume-IsValid, advance-IsValid, start-IsValid}
use native.Mathlib.Nat.{mod-eq_of_lt}
use mini_rpc.Prelude.{ℕ, ◌≤◌, ◌<◌, inl, refl, List, [], ◌∷◌, arith}
use mini_rpc.Ring.{System, Act, start, advance, consume, act, run, new_system}
use mini_rpc.Ring.Threads.{IsValid}

new_system-IsValid : {A : Type 0} (n : ℕ) → IsValid {A = A} n new_system
unfolding new_system
new_system-IsValid n = record {
  ring = record {
    counted = refl;
    ordered = omega arith;
    room = omega arith;
    window = λ p low high. inl (mod-eq_of_lt (let h : p < n = omega (arith, high) in h));
  };
  threads = λ i. tt;
  apart = λ i j p e. elim e [ ];
  took = refl;
}

act-IsValid :
    {A : Type 0} (n : ℕ) (two : 2 ≤ n) (a : Act A) (s : System A)
    → IsValid n s
    → IsValid n (act n a s)
unfolding act
act-IsValid n two (start i w) s v = start-IsValid n two s v i w
act-IsValid n two (advance i spurious) s v =
    advance-IsValid n two s v i spurious (s.producers i) refl
act-IsValid n two consume s v = consume-IsValid n two s v 0

run-IsValid :
    {A : Type 0} (n : ℕ) (two : 2 ≤ n) (acts : List (Act A)) (s : System A)
    → IsValid n s
    → IsValid n (run n acts s)
unfolding run
run-IsValid n two [] s v = v
run-IsValid n two (a ∷ acts) s v = run-IsValid n two acts (act n a s) (act-IsValid n two a s v)

-- The states that the ring and its producers can reach.
pub reachable-IsValid :
    {A : Type 0} (n : ℕ) (acts : List (Act A)) → 2 ≤ n → IsValid n (run n acts new_system)
reachable-IsValid n acts two = run-IsValid n two acts new_system (new_system-IsValid n)
