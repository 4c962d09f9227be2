-- ===== src/ThreadPool/Room.antt =====
-- `Submit` tries every queue before it waits.
use native.Mathlib.Nat.{mod-add-mod, mod-mod, add-mod_right, mod-lt, mod-eq_of_lt}
use mini_rpc.Prelude.{
  ℕ, zero, suc, ◌+◌, ◌-◌, ◌%◌, ◌<◌, ◌≤◌, ◌≡◌, refl, sym, ap, ◌∙◌, inl, inr, ltb, Option, none, some,
  Bool, true, false, not, List, [], ◌∷◌, arith, length, get_elem?, Bool-cases, if◌then◌else◌,
}
use mini_rpc.ThreadPool.{
  WorkerData, ThreadPool, push_at, Submitted, returns, blocked, counted, attempts, submit,
}

blocked-none :
    (x : Option (List WorkerData)) (j : ℕ) (rest : Submitted × ThreadPool) (p : ThreadPool)
    → let z : Submitted × ThreadPool = elim x [
      | none ↦ rest
      | some ds ↦ (returns true, counted ds p)
    ] in
      (z.0 ≡ blocked j) → (x ≡ none) × (rest.0 ≡ blocked j)
blocked-none none j rest p h = (refl, h)
blocked-none (some ds) j rest p h = cc

attempts-full :
    (c task n idx j t : ℕ) (p : ThreadPool)
    → (attempts c task n idx p).0 ≡ blocked j
    → idx % p.thread_count ≡ idx
    → t < n
    → push_at c task ((idx + t) % p.thread_count) p.worker_data ≡ none
unfolding attempts
attempts-full c task zero idx j t p h low less = absurd (omega (arith, less))
attempts-full c task (suc n) idx j zero p h low less =
    ap (λ i. push_at c task i p.worker_data) (ap (λ i. i % p.thread_count) (omega arith) ∙ low)
    ∙ (blocked-none (push_at c task idx p.worker_data) j
        (attempts c task n ((idx + 1) % p.thread_count) p) p h).0
attempts-full c task (suc n) idx j (suc t) p h low less =
    ap (λ i. push_at c task i p.worker_data)
      (ap (λ i. i % p.thread_count) (omega arith) ∙ sym (mod-add-mod (idx + 1) p.thread_count t))
    ∙ attempts-full c task n ((idx + 1) % p.thread_count) j t p
        (blocked-none (push_at c task idx p.worker_data) j
          (attempts c task n ((idx + 1) % p.thread_count) p) p h).1
        (mod-mod (idx + 1) p.thread_count) (omega (arith, less))

no_room :
    (b : Bool) (x : List WorkerData)
    → let y : Option (List WorkerData) = if b then some x else none in y ≡ none → b ≡ false
no_room true x h = cc
no_room false x h = refl

behind-none :
    (d : WorkerData) (x : Option (List WorkerData))
    → let y : Option (List WorkerData) = elim x [ none ↦ none | some ds ↦ some (d ∷ ds) ] in
      y ≡ none → x ≡ none
behind-none d none h = refl
behind-none d (some ds) h = cc

push_at-full :
    (c task i : ℕ) (ds : List WorkerData) (d : WorkerData)
    → push_at c task i ds ≡ none
    → get_elem? ds i ≡ some d
    → c ≤ length d.queue
unfolding push_at
push_at-full c task i [] d h e = cc
push_at-full c task zero (r ∷ ds) d h e =
    let off : ltb (length r.queue) c ≡ false = no_room (ltb (length r.queue) c) _ h in
    let same : r ≡ d = cc in
    let long : length r.queue ≡ length d.queue = ap (λ x. length x.queue) same in
    ground (arith, off, long)
push_at-full c task (suc i) (r ∷ ds) d h e =
    push_at-full c task i ds d (behind-none r (push_at c task i ds) h) e

-- The attempt that comes to a queue.
attempt_at : (n idx i : ℕ) → idx < n → i < n → (t : ℕ) × ((t < n) × ((idx + t) % n ≡ i))
attempt_at n idx i a b = elim (Bool-cases (ltb i idx)) [
  | inl before ↦ (
    i + n - idx,
    (
      ground (arith, before, a, b),
      ap (λ x. x % n) (ground (arith, before, a)) ∙ add-mod_right i n ∙ mod-eq_of_lt b,
    ),
  )
  | inr after ↦ (
    i - idx,
    (ground (arith, after, b), ap (λ x. x % n) (ground (arith, after)) ∙ mod-eq_of_lt b),
  )
]

submit-blocked :
    (b : Bool) (j k k' : ℕ) (p : ThreadPool) (z : Submitted × ThreadPool)
    → let y : (Submitted × ThreadPool) × ℕ = if not b then ((returns false, p), k) else (z, k') in
      y.0.0 ≡ blocked j → z.0 ≡ blocked j
submit-blocked true j k k' p z h = h
submit-blocked false j k k' p z h = cc

-- A call of `Submit` that nobody disturbs waits only where no queue has room: every queue that it
-- could have put the task into, by its number below the number of threads, holds as many tasks as it
-- can.
pub submit_waits_only_when_full :
    (capacity task local_index j i : ℕ) (p : ThreadPool) (d : WorkerData)
    → (submit capacity (some task) local_index p).0.0 ≡ blocked j
    → get_elem? p.worker_data i ≡ some d
    → i < p.thread_count
    → capacity ≤ length d.queue
unfolding submit
submit_waits_only_when_full capacity task local_index j i p d h e less =
    let n = p.thread_count in
    let idx = local_index % n in
    let (t, (few, here)) = attempt_at n idx i (mod-lt local_index (omega (arith, less))) less in
    let waits =
      submit-blocked p.accepting_tasks j local_index (suc local_index) p
        (attempts capacity task n idx p) h in
    push_at-full capacity task i p.worker_data d
      (ap (λ x. push_at capacity task x p.worker_data) (sym here)
        ∙ attempts-full capacity task n idx j t p waits (mod-mod local_index n) few)
      e
