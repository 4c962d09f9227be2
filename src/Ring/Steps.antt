-- ===== src/Ring/Steps.antt =====
-- Every action keeps the shape of the ring and of its producers.
use mini_rpc.Ring.Placing.{
  begin-WorksOn, works_below, begin-IsThread, placed-apart, pop_ready, Fresh, pop_unready,
  placed-threads, take-next,
}
use mini_rpc.Ring.Window.{wrap_around}
use mathlib.Core.Path.{subst}
use mini_rpc.Prelude.{
  take-append_le, ℕ, ◌+◌, ◌%◌, ◌≤◌, ◌<◌, ◌≡◌, inl, inr, refl, sym, ap, ◌∙◌, some, Bool, true, false,
  not, ◌&&◌, [], ◌∷◌, ◌++◌, arith, take, map, ◌==◌, ltb, Bool-cases, append-nil,
}
use mini_rpc.Ring.{
  slot_at, Producer, idle, loading, loaded, checked, reserved, constructed, returned, after_check,
  exchange, producer_step, System, start, consume, claim, begin, place, act,
}
use mini_rpc.Ring.Threads.{
  popped-IsThread, popped-IsRing, ready-claimed, filled-mine, claiming-IsThread, filled-IsThread,
  get_elem?-last, published-IsThread, filled-IsRing, claiming-IsRing, published-IsRing, IsThread,
  WorksOn, IsValid, claiming, filled, published, popped,
}

module _ {A : Type 0} (n : ℕ) (two : 2 ≤ n) (s : System A) (v : IsValid n s) (i : ℕ) where
  -- The producer has moved on, and the ring is as it was.
  abbrev moved : Producer A → System A
  moved t = record s { producers = place i t s.producers; claimed = s.claimed ++ [] }

  moved-IsValid :
      (t : Producer A) → IsThread n s.ring s.claimed t → Fresh i t s.producers → IsValid n (moved t)
  moved-IsValid t mine fresh = record {
    ring = rw append-nil v.ring;
    threads =
        rw append-nil
          (placed-threads n i t s.producers s.ring s.claimed mine (λ j other. v.threads j));
    apart = placed-apart n i t s.producers v.apart fresh;
    took = rw append-nil v.took;
  }

  -- Nobody else works where this producer does.
  alone :
      (pos : ℕ)
      → WorksOn pos (s.producers i)
      → (j : ℕ) → (j ≡ i → ⊥)
      → WorksOn pos (s.producers j)
      → ⊥
  alone pos mine j other theirs = other (v.apart j i pos theirs mine)

  fresh_load :
      s.ring.enqueue_pos < s.ring.dequeue_pos + n
      → s.ring.enqueue_pos ≤ (slot_at n s.ring.enqueue_pos s.ring).sequence
  fresh_load inside = ground (arith, v.ring.window s.ring.enqueue_pos v.ring.ordered inside)

  -- A free slot at the end of the queue is not yet the first one's.
  not_full :
      (pos : ℕ)
      → (slot_at n pos s.ring).sequence ≡ pos
      → pos ≡ s.ring.enqueue_pos
      → pos < s.ring.dequeue_pos + n
  not_full pos free e = elim (Bool-cases (ltb pos (s.ring.dequeue_pos + n))) [
    | inl inside ↦ ground (arith, inside)
    | inr outside ↦
        let d : ℕ = s.ring.dequeue_pos in
        let end : pos ≡ d + n = ground (arith, outside, e, v.ring.room) in
        let index : pos % n ≡ d % n = ap (λ k. k % n) end ∙ wrap_around n d in
        let same : (slot_at n pos s.ring).sequence ≡ (slot_at n d s.ring).sequence =
          ap (λ k. (s.ring.slots k).sequence) index in
        elim (v.ring.window d (omega arith) (omega arith)) [
          | inl first ↦ absurd (omega (arith, free, end, same, first))
          | inr first ↦ absurd (omega (arith, free, end, same, first.1))
        ]
  ]

  after_check-IsValid :
      (pos : ℕ) (w : A)
      → pos ≤ s.ring.enqueue_pos
      → IsValid n (moved (after_check (slot_at n pos s.ring).sequence pos w))
  after_check-IsValid pos w low = elim (Bool-cases ((slot_at n pos s.ring).sequence == pos)) [
    | inl free ↦ rw free (
        moved-IsValid (checked pos w)
          (low, λ e. (ground (arith, free), not_full pos (ground (arith, free)) e))
          (λ p h. elim h [ ]))
    | inr taken_or_full ↦ elim (Bool-cases (ltb (slot_at n pos s.ring).sequence pos)) [
      | inl full ↦ rw (taken_or_full, full) (moved-IsValid (returned false) tt (λ p h. elim h [ ]))
      | inr lost ↦ rw (taken_or_full, lost) (moved-IsValid (loading w) tt (λ p h. elim h [ ]))
    ]
  ]

  claims_end :
      (w : A)
      → IsThread n s.ring s.claimed (checked s.ring.enqueue_pos w)
      → IsValid n (record s {
        ring = claiming n s.ring s.claimed v.ring;
        producers = place i (reserved s.ring.enqueue_pos w) s.producers;
        claimed = s.claimed ++ (w ∷ []);
      })
  claims_end w h =
      let (free, inside) = h.1 refl in
      record {
        ring = claiming-IsRing n s.ring s.claimed v.ring w inside free;
        threads =
            placed-threads n i (reserved s.ring.enqueue_pos w) s.producers
              (claiming n s.ring s.claimed v.ring) (s.claimed ++ (w ∷ []))
              (
                v.ring.ordered,
                omega arith,
                free,
                get_elem?-last s.claimed w s.ring.enqueue_pos (sym v.ring.counted),
              )
              (λ j other.
                claiming-IsThread n s.ring s.claimed v.ring w (s.producers j) (v.threads j));
        apart = placed-apart n i (reserved s.ring.enqueue_pos w) s.producers v.apart (λ p e.
            inr (λ j g. absurd (
              omega (arith, e, works_below n p s.ring s.claimed (s.producers j) (v.threads j) g))));
        took =
            v.took
            ∙ ap (map some) (
                sym (
                  take-append_le s.ring.dequeue_pos s.claimed (w ∷ [])
                    (omega (arith, v.ring.ordered, v.ring.counted))));
      }

  claims :
      (pos : ℕ) (w : A)
      → IsThread n s.ring s.claimed (checked pos w)
      → s.ring.enqueue_pos ≡ pos
      → IsValid n (record s {
        ring = record s.ring { enqueue_pos = pos + 1 };
        producers = place i (reserved pos w) s.producers;
        claimed = s.claimed ++ (w ∷ []);
      })
  claims pos w h here =
      subst
        (λ k. IsValid n (record s {
          ring = record s.ring { enqueue_pos = k + 1 };
          producers = place i (reserved k w) s.producers;
          claimed = s.claimed ++ (w ∷ []);
        }))
        here (claims_end w (subst (λ k. IsThread n s.ring s.claimed (checked k w)) (sym here) h))

  exchange-IsValid :
      (spurious : Bool) (pos : ℕ) (w : A)
      → IsThread n s.ring s.claimed (checked pos w)
      → let (p, q) = exchange spurious pos w s.ring in
        IsValid n (record s {
          ring = q;
          producers = place i p s.producers;
          claimed = s.claimed ++ claim (checked pos w) p;
        })
  exchange-IsValid spurious pos w h =
      elim (Bool-cases (not spurious && s.ring.enqueue_pos == pos)) [
        | inl wins ↦ rw wins (claims pos w h (ground (arith, wins)))
        | inr fails ↦ rw fails (
            moved-IsValid (loaded s.ring.enqueue_pos w) (omega arith, fresh_load)
              (λ p g. elim g [ ]))
      ]

  fills :
      (pos : ℕ) (w : A)
      → s.producers i ≡ reserved pos w
      → IsThread n s.ring s.claimed (reserved pos w)
      → IsValid n (record s {
        ring = filled n s.ring s.claimed v.ring pos w;
        producers = place i (constructed pos w) s.producers;
        claimed = s.claimed ++ [];
      })
  fills pos w here own =
      let mine : WorksOn pos (s.producers i) = subst (WorksOn pos) (sym here) refl in
      record {
        ring = rw append-nil (filled-IsRing n s.ring s.claimed v.ring pos w own);
        threads = rw append-nil (
            placed-threads n i (constructed pos w) s.producers
              (filled n s.ring s.claimed v.ring pos w) s.claimed
              (filled-mine n s.ring s.claimed v.ring pos w own)
              (λ j other.
                filled-IsThread n s.ring s.claimed v.ring pos w own (s.producers j) (v.threads j)
                  (alone pos mine j other)));
        apart =
            placed-apart n i (constructed pos w) s.producers v.apart
              (λ p e. inl (subst (WorksOn p) (sym here) e));
        took = rw append-nil v.took;
      }

  publishes :
      (pos : ℕ) (w : A)
      → s.producers i ≡ constructed pos w
      → IsThread n s.ring s.claimed (constructed pos w)
      → IsValid n (record s {
        ring = published n s.ring s.claimed v.ring pos;
        producers = place i (returned true) s.producers;
        claimed = s.claimed ++ [];
      })
  publishes pos w here own =
      let mine : WorksOn pos (s.producers i) = subst (WorksOn pos) (sym here) refl in
      record {
        ring = rw append-nil (published-IsRing n s.ring s.claimed v.ring pos w own.0 own.1);
        threads = rw append-nil (
            placed-threads n i (returned true) s.producers (published n s.ring s.claimed v.ring pos)
              s.claimed tt
              (λ j other.
                published-IsThread n s.ring s.claimed v.ring pos w own.0 (s.producers j)
                  (v.threads j) (alone pos mine j other)));
        apart = placed-apart n i (returned true) s.producers v.apart (λ p e. elim e [ ]);
        took = rw append-nil v.took;
      }

  -- One step of the producer.
  pub advance-IsValid :
      (spurious : Bool) (t : Producer A)
      → s.producers i ≡ t
      → let (p, q) = producer_step n spurious t s.ring in
        IsValid n (record s {
          ring = q;
          producers = place i p s.producers;
          claimed = s.claimed ++ claim t p;
        })
  unfolding producer_step
  advance-IsValid spurious idle here = moved-IsValid idle tt (λ p e. elim e [ ])
  advance-IsValid spurious (loading w) here =
      moved-IsValid (loaded s.ring.enqueue_pos w) (omega arith, fresh_load) (λ p e. elim e [ ])
  advance-IsValid spurious (loaded pos w) here =
      after_check-IsValid pos w (subst (IsThread n s.ring s.claimed) here (v.threads i)).0
  advance-IsValid spurious (checked pos w) here =
      exchange-IsValid spurious pos w (subst (IsThread n s.ring s.claimed) here (v.threads i))
  advance-IsValid spurious (reserved pos w) here =
      fills pos w here (subst (IsThread n s.ring s.claimed) here (v.threads i))
  advance-IsValid spurious (constructed pos w) here =
      publishes pos w here (subst (IsThread n s.ring s.claimed) here (v.threads i))
  advance-IsValid spurious (returned b) here = moved-IsValid (returned b) tt (λ p e. elim e [ ])

  unmoved-IsValid : IsValid n (record s { consumed = s.consumed ++ [] })
  unmoved-IsValid = record {
    ring = v.ring;
    threads = v.threads;
    apart = v.apart;
    took = rw append-nil v.took;
  }

  takes :
      s.ring.dequeue_pos + 1 ≤ (slot_at n s.ring.dequeue_pos s.ring).sequence
      → IsValid n (record s {
        ring = popped n s.ring s.claimed v.ring;
        consumed = s.consumed ++ ((slot_at n s.ring.dequeue_pos s.ring).storage ∷ []);
      })
  takes ready =
      let (low, found) = ready-claimed n s.ring s.claimed v.ring two ready in
      record {
        ring = popped-IsRing n s.ring s.claimed v.ring two ready;
        threads =
            λ j. popped-IsThread n s.ring s.claimed v.ring two ready (s.producers j) (v.threads j);
        apart = v.apart;
        took =
            ap (λ l. l ++ ((slot_at n s.ring.dequeue_pos s.ring).storage ∷ [])) v.took
            ∙ ap (λ x. map some (take s.ring.dequeue_pos s.claimed) ++ (x ∷ [])) found
            ∙ take-next s.claimed s.ring.dequeue_pos (omega (arith, low, v.ring.counted));
      }

  pub consume-IsValid : IsValid n (act n consume s)
  unfolding act
  consume-IsValid =
      elim (Bool-cases
        (ltb (slot_at n s.ring.dequeue_pos s.ring).sequence (s.ring.dequeue_pos + 1))) [
          | inl unready ↦ rw (pop_unready n s.ring unready) (unmoved-IsValid)
          | inr ready ↦
              rw (pop_ready n s.ring s.claimed v.ring ready) (takes (ground (arith, ready)))
        ]

  pub start-IsValid : (w : A) → IsValid n (act n (start i w) s)
  unfolding act
  start-IsValid w = record {
    ring = v.ring;
    threads =
        placed-threads n i (begin w (s.producers i)) s.producers s.ring s.claimed
          (begin-IsThread n w s.ring s.claimed (s.producers i) (v.threads i))
          (λ j other. v.threads j);
    apart =
        placed-apart n i (begin w (s.producers i)) s.producers v.apart
          (λ p e. inl (begin-WorksOn w p (s.producers i) e));
    took = v.took;
  }
