-- ===== src/Ring/Order.antt =====
-- What the queue promises: first in, first out; never more than its capacity; and a push that is
-- refused finds it full.
use mathlib.Core.Path.{subst}
use mini_rpc.Prelude.{
  ℕ, ◌+◌, ◌≤◌, ◌<◌, ◌≡◌, inl, inr, some, false, List, arith, take, map, length, ltb, Bool-cases,
}
use mini_rpc.Ring.{
  Ring, slot_at, loaded, returned, after_check, producer_step, System, Act, run, new_system,
}
use mini_rpc.Ring.Threads.{IsThread}
use mini_rpc.Ring.Reachable.{reachable-IsValid}

-- However the producers and the consumer interleave, the consumer has taken exactly the values of the
-- first positions, each once, in the order in which the producers took the positions. (The capacity
-- is at least 2, as the class demands.)
pub first_in_first_out :
    {A : Type 0} (capacity : ℕ) (acts : List (Act A))
    → 2 ≤ capacity
    → let s : System A = run capacity acts new_system in
      (s.consumed ≡ map some (take s.ring.dequeue_pos s.claimed))
      × (s.ring.dequeue_pos ≤ length s.claimed)
first_in_first_out capacity acts two =
    let v = reachable-IsValid capacity acts two in
    (v.took, omega (arith, v.ring.counted, v.ring.ordered))

-- However the threads interleave, the positions that are taken and not yet consumed are at most as
-- many as the ring has slots. (The capacity is at least 2.)
pub within_capacity :
    {A : Type 0} (capacity : ℕ) (acts : List (Act A))
    → 2 ≤ capacity
    → let s : System A = run capacity acts new_system in
      length s.claimed ≤ s.ring.dequeue_pos + capacity
within_capacity capacity acts two =
    let v = reachable-IsValid capacity acts two in omega (arith, v.ring.counted, v.ring.room)

refused-full :
    {A : Type 0} (n pos : ℕ) (w : A) (q : Ring A)
    → after_check (slot_at n pos q).sequence pos w ≡ returned false
    → (slot_at n pos q).sequence < pos
refused-full n pos w q h = ground (arith, h)

-- A `TryPush` gives up only on a full queue: in a state that the threads can reach, where a producer's
-- check of its slot ends the call with false, as many positions are taken and not consumed as the
-- ring has slots. (The capacity is at least 2.)
pub refused_only_when_full :
    {A : Type 0} (capacity : ℕ) (acts : List (Act A)) (i pos : ℕ) (w : A)
    → 2 ≤ capacity
    → (run capacity acts new_system).producers i ≡ loaded pos w
    → (producer_step capacity false (loaded pos w) (run capacity acts new_system).ring).0
      ≡ returned false
    → length (run capacity acts new_system).claimed
      ≡ (run capacity acts new_system).ring.dequeue_pos + capacity
unfolding producer_step
refused_only_when_full capacity acts i pos w two here refused =
    let s = run capacity acts new_system in
    let v = reachable-IsValid capacity acts two in
    let (low, fresh) = subst (IsThread capacity s.ring s.claimed) here (v.threads i) in
    let less = refused-full capacity pos w s.ring refused in
    elim (Bool-cases (ltb pos (s.ring.dequeue_pos + capacity))) [
      | inl inside ↦ absurd (omega (arith, less, fresh (ground (arith, inside))))
      | inr outside ↦ ground (arith, outside, low, v.ring.room, v.ring.counted)
    ]
