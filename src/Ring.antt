-- ===== src/Ring.antt =====
-- common/mpsc_ring_queue.h: a bounded queue of many producers and one consumer. Each atomic action of
-- a producer is a step of its own, so that the threads interleave; the positions do not wrap here.
pub mod Window
pub mod Threads
pub mod Placing
pub mod Steps
pub mod Reachable
pub mod Order
mod Tests
use mini_rpc.Prelude.{
  ℕ, zero, suc, ◌+◌, ◌%◌, Option, none, some, Bool, true, false, not, ◌&&◌, List, [], ◌∷◌, ◌++◌,
  ltb, ◌==◌, if◌then◌else◌,
}

pub record Slot (A : Type 0) : Type 0 where
  pub sequence : ℕ
  pub storage : Option A

pub record Ring (A : Type 0) : Type 0 where
  pub enqueue_pos : ℕ
  pub dequeue_pos : ℕ
  pub slots : ℕ → Slot A

-- `pos & kMask` is `pos % Capacity`, the capacity being a power of two.
abbrev pub slot_at : {A : Type 0} → ℕ → ℕ → Ring A → Slot A
slot_at capacity pos q = q.slots (pos % capacity)

pub store : {A : Type 0} → ℕ → Slot A → (ℕ → Slot A) → ℕ → Slot A
store i slot slots j = if j == i then slot else slots j

abbrev pub write_slot : {A : Type 0} → ℕ → ℕ → Slot A → Ring A → Ring A
write_slot capacity pos slot q = record q { slots = store (pos % capacity) slot q.slots }

pub new_ring : {A : Type 0} → Ring A
new_ring = record {
  enqueue_pos = 0;
  dequeue_pos = 0;
  slots = λ i. record { sequence = i; storage = none };
}

-- Where a producer stands in `TryPush`: it loads `enqueue_pos_`, reads the slot's sequence, exchanges
-- the position, constructs the element, publishes it, and returns.
pub data Producer (A : Type 0) : Type 0 where
  idle : Producer A
  loading : A → Producer A
  loaded : ℕ → A → Producer A
  checked : ℕ → A → Producer A
  reserved : ℕ → A → Producer A
  constructed : ℕ → A → Producer A
  returned : Bool → Producer A

-- By the sign of `diff`.
abbrev pub after_check : {A : Type 0} → ℕ → ℕ → A → Producer A
after_check seq pos v =
    if seq == pos then checked pos v else if ltb seq pos then returned false else loading v

-- The exchange may fail without a reason; where it fails, `pos` is what it found.
abbrev pub exchange : {A : Type 0} → Bool → ℕ → A → Ring A → Producer A × Ring A
exchange spurious pos v q =
    if not spurious && q.enqueue_pos == pos
    then (reserved pos v, record q { enqueue_pos = pos + 1 })
    else (loaded q.enqueue_pos v, q)

pub producer_step : {A : Type 0} → ℕ → Bool → Producer A → Ring A → Producer A × Ring A
producer_step capacity spurious idle q = (idle, q)
producer_step capacity spurious (loading v) q = (loaded q.enqueue_pos v, q)
producer_step capacity spurious (loaded pos v) q =
    (after_check (slot_at capacity pos q).sequence pos v, q)
producer_step capacity spurious (checked pos v) q = exchange spurious pos v q
producer_step capacity spurious (reserved pos v) q = (
  constructed pos v,
  write_slot capacity pos (record (slot_at capacity pos q) { storage = some v }) q,
)
producer_step capacity spurious (constructed pos v) q = (
  returned true,
  write_slot capacity pos (record (slot_at capacity pos q) { sequence = pos + 1 }) q,
)
producer_step capacity spurious (returned b) q = (returned b, q)

-- What `TryPopOne` finds: no published slot, or one, with what its storage holds.
pub data Popped (A : Type 0) : Type 0 where
  nothing : Popped A
  element : Option A → Popped A

-- The consumer owns a published slot until it stores the slot's next sequence, so its reads and that
-- store are one step.
pub try_pop_one : {A : Type 0} → ℕ → Ring A → Popped A × Ring A
try_pop_one capacity q =
    let slot = slot_at capacity q.dequeue_pos q in
    if ltb slot.sequence (q.dequeue_pos + 1) then (nothing, q) else (
      element slot.storage,
      record (write_slot capacity q.dequeue_pos
          (record { sequence = q.dequeue_pos + capacity; storage = none }) q) {
            dequeue_pos = q.dequeue_pos + 1;
          },
    )

-- `PopBatch` into a span of `room` elements.
pub pop_batch : {A : Type 0} → ℕ → ℕ → Ring A → List (Option A) × Ring A
unfolding try_pop_one
pop_batch capacity zero q = ([], q)
pop_batch capacity (suc room) q =
    let (v, q') = try_pop_one capacity q in
    let rest = pop_batch capacity room q' in
    elim v [ nothing ↦ ([], q) | element e ↦ (e ∷ rest.0, rest.1) ]

pub is_empty : {A : Type 0} → ℕ → Ring A → Bool
is_empty capacity q = ltb (slot_at capacity q.dequeue_pos q).sequence (q.dequeue_pos + 1)

-- The ring with its producers, by number; the values whose positions were taken, in order; and what
-- the consumer has taken.
pub record System (A : Type 0) : Type 0 where
  pub ring : Ring A
  pub producers : ℕ → Producer A
  pub claimed : List A
  pub consumed : List (Option A)

pub data Act (A : Type 0) : Type 0 where
  start : ℕ → A → Act A
  advance : ℕ → Bool → Act A
  consume : Act A

abbrev pub claim : {A : Type 0} → Producer A → Producer A → List A
claim (checked pos v) (reserved pos' v') = v ∷ []
claim p p' = []

-- A producer begins a call of `TryPush` when it is in none.
abbrev pub begin : {A : Type 0} → A → Producer A → Producer A
begin v idle = loading v
begin v (returned b) = loading v
begin v p = p

pub place : {A : Type 0} → ℕ → Producer A → (ℕ → Producer A) → ℕ → Producer A
place i p ps j = if j == i then p else ps j

abbrev pub taken : {A : Type 0} → Popped A → List (Option A)
taken nothing = []
taken (element v) = v ∷ []

unfoldable pub act : {A : Type 0} → ℕ → Act A → System A → System A
unfolding producer_step try_pop_one place
act capacity (start i v) s = record s { producers = place i (begin v (s.producers i)) s.producers }
act capacity (advance i spurious) s =
    let (p, q) = producer_step capacity spurious (s.producers i) s.ring in
    record s {
      ring = q;
      producers = place i p s.producers;
      claimed = s.claimed ++ claim (s.producers i) p;
    }
act capacity consume s =
    let (v, q) = try_pop_one capacity s.ring in
    record s { ring = q; consumed = s.consumed ++ taken v }

unfoldable pub run : {A : Type 0} → ℕ → List (Act A) → System A → System A
unfolding act
run capacity [] s = s
run capacity (a ∷ acts) s = run capacity acts (act capacity a s)

pub new_system : {A : Type 0} → System A
unfolding new_ring
new_system = record { ring = new_ring; producers = λ i. idle; claimed = []; consumed = [] }
