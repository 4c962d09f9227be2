-- ===== src/Ring/Threads.antt =====
-- The shape of the ring between two atomic actions, and what an action of one producer leaves true
-- of the others.
use mini_rpc.Prelude.{
  ◌∙◌, ap, Bool-cases, length-append, ℕ, zero, suc, ◌+◌, ◌%◌, ◌≤◌, ◌<◌, ◌≡◌, ◌⊎◌, inl, inr, refl,
  none, some, List, [], ◌∷◌, ◌++◌, arith, length, get_elem?, take, map, ◌==◌,
}
use mini_rpc.Ring.{
  Ring, slot_at, store, write_slot, Producer, idle, loading, loaded, checked, reserved, constructed,
  returned, System,
}
use mini_rpc.Ring.Window.{window_inj, wrap_around}

module _ {A : Type 0} (n : ℕ) where
  -- The slot of a position in the window is free, or its producer is at work; or it is published, with
  -- the value that took the position.
  abbrev pub IsSlot : Ring A → List A → ℕ → Type 0
  IsSlot q claimed p =
      ((slot_at n p q).sequence ≡ p)
      ⊎ ((p < q.enqueue_pos)
          × ((slot_at n p q).sequence ≡ p + 1)
          × ((slot_at n p q).storage ≡ get_elem? claimed p))

  abbrev pub Owns : Ring A → List A → ℕ → A → Type 0
  Owns q claimed pos v =
      (q.dequeue_pos ≤ pos)
      × (pos < q.enqueue_pos)
      × ((slot_at n pos q).sequence ≡ pos)
      × (get_elem? claimed pos ≡ some v)

  -- What a producer may rely on where it stands.
  abbrev pub IsThread : Ring A → List A → Producer A → Type 0
  IsThread q claimed (loaded pos v) =
      (pos ≤ q.enqueue_pos) × (pos < q.dequeue_pos + n → pos ≤ (slot_at n pos q).sequence)
  IsThread q claimed (checked pos v) =
      (pos ≤ q.enqueue_pos)
      × (pos ≡ q.enqueue_pos → ((slot_at n pos q).sequence ≡ pos) × (pos < q.dequeue_pos + n))
  IsThread q claimed (reserved pos v) = Owns q claimed pos v
  IsThread q claimed (constructed pos v) =
      Owns q claimed pos v × ((slot_at n pos q).storage ≡ some v)
  IsThread q claimed p = Unit {0}

-- The producer is at work on the position.
abbrev pub WorksOn : {A : Type 0} → ℕ → Producer A → Type 0
WorksOn p (reserved pos v) = pos ≡ p
WorksOn p (constructed pos v) = pos ≡ p
WorksOn p other = ⊥

pub record IsRing {A : Type 0} (n : ℕ) (q : Ring A) (claimed : List A) : Type 0 where
  pub counted : length claimed ≡ q.enqueue_pos
  pub ordered : q.dequeue_pos ≤ q.enqueue_pos
  pub room : q.enqueue_pos ≤ q.dequeue_pos + n
  pub window : (p : ℕ) → q.dequeue_pos ≤ p → p < q.dequeue_pos + n → IsSlot n q claimed p

pub record IsValid {A : Type 0} (n : ℕ) (s : System A) : Type 0 where
  pub ring : IsRing n s.ring s.claimed
  pub threads : (i : ℕ) → IsThread n s.ring s.claimed (s.producers i)
  pub apart : (i j p : ℕ) → WorksOn p (s.producers i) → WorksOn p (s.producers j) → i ≡ j
  pub took : s.consumed ≡ map some (take s.ring.dequeue_pos s.claimed)

get_elem?-append :
    {A : Type 0} (xs ys : List A) (i : ℕ) → i < length xs → get_elem? (xs ++ ys) i ≡ get_elem? xs i
get_elem?-append [] ys i h = elim h [ ]
get_elem?-append (x ∷ xs) ys zero h = refl
get_elem?-append (x ∷ xs) ys (suc i) h = get_elem?-append xs ys i (omega arith)

pub get_elem?-last :
    {A : Type 0} (xs : List A) (v : A) (i : ℕ)
    → i ≡ length xs
    → get_elem? (xs ++ (v ∷ [])) i ≡ some v
get_elem?-last [] v i e = rw e refl
get_elem?-last (x ∷ xs) v zero e = absurd (omega (arith, e))
get_elem?-last (x ∷ xs) v (suc i) e = get_elem?-last xs v i (omega (arith, e))

module _ {A : Type 0} (n : ℕ) (q : Ring A) (claimed : List A) (good : IsRing n q claimed) where
  -- A position is taken.
  abbrev pub claiming : Ring A
  claiming = record q { enqueue_pos = q.enqueue_pos + 1 }

  pub claiming-IsRing :
      (v : A)
      → q.enqueue_pos < q.dequeue_pos + n
      → (slot_at n q.enqueue_pos q).sequence ≡ q.enqueue_pos
      → IsRing n claiming (claimed ++ (v ∷ []))
  claiming-IsRing v free mine = record {
    counted = omega (arith, length-append claimed (v ∷ []), good.counted);
    ordered = omega (arith, good.ordered);
    room = omega arith;
    window = λ p low high.
        ground (arith, good.window p low high, get_elem?-append claimed (v ∷ []) p, good.counted);
  }

  pub claiming-IsThread :
      (v : A) (t : Producer A)
      → IsThread n q claimed t
      → IsThread n claiming (claimed ++ (v ∷ [])) t
  claiming-IsThread v idle h = tt
  claiming-IsThread v (loading w) h = tt
  claiming-IsThread v (loaded pos w) h = (omega (arith, h.0), h.1)
  claiming-IsThread v (checked pos w) h = (omega (arith, h.0), λ e. absurd (omega (arith, h.0, e)))
  claiming-IsThread v (reserved pos w) h =
      ground (arith, h, good.counted, get_elem?-append claimed (v ∷ []) pos)
  claiming-IsThread v (constructed pos w) h =
      ground (arith, h, good.counted, get_elem?-append claimed (v ∷ []) pos)
  claiming-IsThread v (returned b) h = tt

  -- An element is constructed at a position that its producer works on.
  abbrev pub filled : ℕ → A → Ring A
  filled pos v = write_slot n pos (record (slot_at n pos q) { storage = some v }) q

  abbrev pub published : ℕ → Ring A
  published pos = write_slot n pos (record (slot_at n pos q) { sequence = pos + 1 }) q

  module _ (pos : ℕ) (v : A) (own : Owns n q claimed pos v) where
    pub filled-IsRing : IsRing n (filled pos v) claimed
    unfolding store
    filled-IsRing = record {
      counted = good.counted;
      ordered = good.ordered;
      room = good.room;
      window = λ p low high.
          ground (arith, good.window p low high, own, good.room, window_inj n q.dequeue_pos p pos);
    }

    pub filled-mine : IsThread n (filled pos v) claimed (constructed pos v)
    unfolding store
    filled-mine = ground (arith, own)

    pub filled-IsThread :
        (t : Producer A)
        → IsThread n q claimed t
        → (WorksOn pos t → ⊥)
        → IsThread n (filled pos v) claimed t
    unfolding store
    filled-IsThread idle h other = tt
    filled-IsThread (loading w) h other = tt
    filled-IsThread (loaded p w) h other = (h.0, λ l. ground (arith, h.1 l))
    filled-IsThread (checked p w) h other = (h.0, λ e. ground (arith, h.1 e))
    filled-IsThread (reserved p w) h other = ground (arith, h)
    filled-IsThread (constructed p w) h other =
        ground (arith, h, own, other, good.room, window_inj n q.dequeue_pos p pos)
    filled-IsThread (returned b) h other = tt

    -- The element is published.
    pub published-IsRing : (slot_at n pos q).storage ≡ some v → IsRing n (published pos) claimed
    unfolding store
    published-IsRing there = record {
      counted = good.counted;
      ordered = good.ordered;
      room = good.room;
      window = λ p low high.
          ground (
            arith,
            good.window p low high,
            own,
            there,
            good.room,
            window_inj n q.dequeue_pos p pos,
          );
    }

    pub published-IsThread :
        (t : Producer A)
        → IsThread n q claimed t
        → (WorksOn pos t → ⊥)
        → IsThread n (published pos) claimed t
    unfolding store
    published-IsThread idle h other = tt
    published-IsThread (loading w) h other = tt
    published-IsThread (loaded p w) h other = (h.0, λ l. ground (arith, h.1 l, own))
    published-IsThread (checked p w) h other = (
      h.0,
      λ e. ground (arith, h.1 e, e, own, good.room, good.ordered, window_inj n q.dequeue_pos p pos),
    )
    published-IsThread (reserved p w) h other =
        ground (arith, h, own, other, good.room, window_inj n q.dequeue_pos p pos)
    published-IsThread (constructed p w) h other =
        ground (arith, h, own, other, good.room, window_inj n q.dequeue_pos p pos)
    published-IsThread (returned b) h other = tt

  -- The consumer takes a published element.
  abbrev pub popped : Ring A
  popped =
      record (write_slot n q.dequeue_pos (record { sequence = q.dequeue_pos + n; storage = none })
        q) { dequeue_pos = q.dequeue_pos + 1 }

  module _ (two : 2 ≤ n) (ready : q.dequeue_pos + 1 ≤ (slot_at n q.dequeue_pos q).sequence) where
    -- What the consumer finds is the value of the position at which it stands.
    pub ready-claimed :
        (q.dequeue_pos < q.enqueue_pos)
        × ((slot_at n q.dequeue_pos q).storage ≡ get_elem? claimed q.dequeue_pos)
    ready-claimed = ground (arith, good.window q.dequeue_pos (omega arith) (omega arith), ready)

    popped-window :
        (p : ℕ) → q.dequeue_pos + 1 ≤ p → p < q.dequeue_pos + 1 + n → IsSlot n popped claimed p
    unfolding store
    popped-window p low high = elim (Bool-cases (p == q.dequeue_pos + n)) [
      | inl last ↦
          let same : p ≡ q.dequeue_pos + n = ground (arith, last) in
          let index : p % n ≡ q.dequeue_pos % n =
            ap (λ k. k % n) same ∙ wrap_around n q.dequeue_pos in
          inl (ground (arith, same, index))
      | inr before ↦ ground (
        arith,
        before,
        good.window p (omega arith) (ground (arith, before)),
        window_inj n q.dequeue_pos p q.dequeue_pos,
      )
    ]

    pub popped-IsRing : IsRing n popped claimed
    unfolding store
    popped-IsRing = record {
      counted = good.counted;
      ordered = omega (arith, ready-claimed.0);
      room = omega (arith, good.room);
      window = popped-window;
    }

    -- A producer at work is not at the position that is taken.
    later : (p : ℕ) {w : A} → Owns n q claimed p w → q.dequeue_pos + 1 ≤ p
    later p own = elim (Bool-cases (p == q.dequeue_pos)) [
      | inl same ↦
          let here : p ≡ q.dequeue_pos = ground (arith, same) in
          absurd (omega (arith, ready, own, ap (λ k. (slot_at n k q).sequence) here, here))
      | inr other ↦ ground (arith, other, own)
    ]

    popped-loaded :
        (p : ℕ)
        → p ≤ q.enqueue_pos
        → (p < q.dequeue_pos + n → p ≤ (slot_at n p q).sequence)
        → p < q.dequeue_pos + 1 + n
        → p ≤ (slot_at n p popped).sequence
    unfolding store
    popped-loaded p low h high = elim (Bool-cases (p == q.dequeue_pos + n)) [
      | inl last ↦
          let same : p ≡ q.dequeue_pos + n = ground (arith, last) in
          let index : p % n ≡ q.dequeue_pos % n =
            ap (λ k. k % n) same ∙ wrap_around n q.dequeue_pos in
          ground (arith, same, index)
      | inr before ↦ ground (arith, before, h (ground (arith, before)))
    ]

    pub popped-IsThread : (t : Producer A) → IsThread n q claimed t → IsThread n popped claimed t
    unfolding store
    popped-IsThread idle h = tt
    popped-IsThread (loading w) h = tt
    popped-IsThread (loaded p w) h = (h.0, popped-loaded p h.0 h.1)
    popped-IsThread (checked p w) h = (
      h.0,
      λ e. ground (
        arith,
        h.1 e,
        e,
        ready-claimed.0,
        good.ordered,
        window_inj n q.dequeue_pos p q.dequeue_pos,
      ),
    )
    popped-IsThread (reserved p w) h =
        ground (arith, h, ready, later p h, good.room, window_inj n q.dequeue_pos p q.dequeue_pos)
    popped-IsThread (constructed p w) h =
        ground (arith, h, ready, later p h.0, good.room, window_inj n q.dequeue_pos p q.dequeue_pos)
    popped-IsThread (returned b) h = tt
