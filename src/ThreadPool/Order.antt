-- ===== src/ThreadPool/Order.antt =====
-- No task of the pool is lost, run twice, or run out of turn.
use mini_rpc.Prelude.{
  ℕ, zero, suc, ◌==◌, ltb, ◌≡◌, refl, sym, ap, ◌∙◌, Option, none, some, Bool, true, false, List, [],
  ◌∷◌, ◌++◌, append_assoc, append-nil, arith, length, get_elem?, if◌then◌else◌, Bool-cases, inl,
  inr,
}
use mini_rpc.ThreadPool.{
  Phase, popping, empty_handed, holding, running, leaving, returned, WorkerData, ThreadPool,
  batch_size, fresh_workers, new_thread_pool, start, push_at, pop_one, run_one, work_step, work_at,
  Producer, idle, entering, trying, waiting, counting, finished, pushed_or, submit_step, System,
  Act, submits, advances, works, stops, act, act_all, started,
}

-- The tasks that were pushed into one queue, in order.
pub given : ℕ → List (ℕ × ℕ) → List ℕ
given i [] = []
given i ((j, task) ∷ log) = let rest = given i log in if j == i then task ∷ rest else rest

-- What has run, then what is left of the batch, then what waits.
abbrev pub history : WorkerData → List ℕ
history d = d.executed ++ (d.batch ++ d.queue)

given-append :
    (i : ℕ) (log log' : List (ℕ × ℕ)) → given i (log ++ log') ≡ given i log ++ given i log'
unfolding given
given-append i [] log' = refl
given-append i ((j, task) ∷ log) log' = ground (arith, given-append i log log')

-- The history of the thread `i` has grown by these tasks.
abbrev Grown : ℕ → List ℕ → List WorkerData → List WorkerData → Type 0
Grown i more ds ds' =
    (d' : WorkerData)
    → get_elem? ds' i ≡ some d'
    → (d : WorkerData) × ((get_elem? ds i ≡ some d) × (history d' ≡ history d ++ more))

same-Grown : (i : ℕ) (ds : List WorkerData) → Grown i [] ds ds
same-Grown i ds d' h = (d', (h, sym (append-nil (history d'))))

pop_one-history : (q : List ℕ) (d : WorkerData) → q ≡ d.queue → history (pop_one q d) ≡ history d
unfolding pop_one
pop_one-history [] d e = refl
pop_one-history (t ∷ ts) d e = elim (Bool-cases (ltb (length d.batch) batch_size)) [
  | inl room ↦
      simp (room)
        (ap (λ x. d.executed ++ x) (append_assoc d.batch (t ∷ []) ts ∙ ap (λ x. d.batch ++ x) e))
  | inr full ↦ simp (full) refl
]

run_one-history :
    (b : List ℕ) (d : WorkerData) (p : ThreadPool)
    → b ≡ d.batch
    → history (run_one b d p).0 ≡ history d
unfolding run_one
run_one-history [] d p e = refl
run_one-history (t ∷ ts) d p e =
    append_assoc d.executed (t ∷ []) (ts ++ d.queue) ∙ ap (λ x. d.executed ++ (x ++ d.queue)) e

work_step-history :
    (phase : Phase) (d : WorkerData) (p : ThreadPool) → history (work_step phase d p).0 ≡ history d
unfolding work_step
work_step-history popping d p = pop_one-history d.queue d refl
work_step-history empty_handed d p = refl
work_step-history holding d p = refl
work_step-history running d p = run_one-history d.batch d p refl
work_step-history leaving d p = refl
work_step-history returned d p = refl

work_at-Grown : (i j : ℕ) (ds : List WorkerData) (p : ThreadPool) → Grown i [] ds (work_at j ds p).0
unfolding work_at
work_at-Grown i j [] p d' h = cc
work_at-Grown zero zero (d ∷ ds) p d' h =
    let same : (work_step d.phase d p).0 ≡ d' = cc in
    (
      d,
      (refl, ap history (sym same) ∙ work_step-history d.phase d p ∙ sym (append-nil (history d))),
    )
work_at-Grown (suc i) zero (d ∷ ds) p d' h = same-Grown i ds d' h
work_at-Grown zero (suc j) (d ∷ ds) p d' h = (d', (h, sym (append-nil (history d'))))
work_at-Grown (suc i) (suc j) (d ∷ ds) p d' h = work_at-Grown i j ds p d' h

abbrev put : ℕ → ℕ → ℕ → List ℕ
put j i task = if j == i then task ∷ [] else []

abbrev GrownBy : ℕ → List ℕ → List WorkerData → Option (List WorkerData) → Type 0
GrownBy i more ds none = Unit
GrownBy i more ds (some ds') = Grown i more ds ds'

pushed-history :
    (task : ℕ) (d : WorkerData)
    → history (record d { queue = d.queue ++ task ∷ [] }) ≡ history d ++ task ∷ []
pushed-history task d = sym (
    append_assoc d.executed (d.batch ++ d.queue) (task ∷ [])
    ∙ ap (λ x. d.executed ++ x) (append_assoc d.batch d.queue (task ∷ [])))

room-GrownBy :
    (i task : ℕ) (b : Bool) (d : WorkerData) (ds : List WorkerData)
    → GrownBy i
        (put 0 i task)
        (d ∷ ds)
        (if b then some (record d { queue = d.queue ++ task ∷ [] } ∷ ds) else none)
room-GrownBy i task false d ds = tt
room-GrownBy zero task true d ds = λ d' h.
    let same : record d { queue = d.queue ++ task ∷ [] } ≡ d' = cc in
    (d, (refl, ap history (sym same) ∙ pushed-history task d))
room-GrownBy (suc i) task true d ds = λ d' h.
    let apart : (0 == suc i) ≡ false = ground arith in
    (d', (h, rw (apart) (sym (append-nil (history d')))))

behind-GrownBy :
    (i j task : ℕ) (d : WorkerData) (ds : List WorkerData) (x : Option (List WorkerData))
    → ((k : ℕ) → GrownBy k (put j k task) ds x)
    → GrownBy i (put (suc j) i task) (d ∷ ds) (elim x [ none ↦ none | some ds' ↦ some (d ∷ ds') ])
behind-GrownBy i j task d ds none h = tt
behind-GrownBy zero j task d ds (some ds') h = λ d' e.
    let apart : (suc j == 0) ≡ false = ground arith in
    (d', (e, rw (apart) (sym (append-nil (history d')))))
behind-GrownBy (suc i) j task d ds (some ds') h =
    λ d' e. let same : (suc j == suc i) ≡ (j == i) = ground arith in rw (same) (h i d' e)

push_at-GrownBy :
    (i c task j : ℕ) (ds : List WorkerData) → GrownBy i (put j i task) ds (push_at c task j ds)
unfolding push_at
push_at-GrownBy i c task j [] = tt
push_at-GrownBy i c task zero (d ∷ ds) = room-GrownBy i task (ltb (length d.queue) c) d ds
push_at-GrownBy i c task (suc j) (d ∷ ds) =
    behind-GrownBy i j task d ds (push_at c task j ds) (λ k. push_at-GrownBy k c task j ds)

-- What a step of `Submit` does to the threads and to the log.
abbrev Logged : ℕ → ThreadPool → (Producer × ThreadPool) × List (ℕ × ℕ) → Type 0
Logged i p ((q, p'), pushes) = Grown i (given i pushes) p.worker_data p'.worker_data

pushed_or-Logged :
    (i task j : ℕ) (x : Option (List WorkerData)) (next : Producer) (p : ThreadPool)
    → GrownBy i (put j i task) p.worker_data x
    → Logged i p (pushed_or task j x next p)
unfolding pushed_or given
pushed_or-Logged i task j none next p h = same-Grown i p.worker_data
pushed_or-Logged i task j (some ds) next p h = h

submit_step-Logged : (i c : ℕ) (q : Producer) (p : ThreadPool) → Logged i p (submit_step c q p)
unfolding submit_step given
submit_step-Logged i c idle p = same-Grown i p.worker_data
submit_step-Logged i c (entering task k) p = same-Grown i p.worker_data
submit_step-Logged i c (trying task zero idx) p = same-Grown i p.worker_data
submit_step-Logged i c (trying task (suc n) idx) p =
    pushed_or-Logged i task idx (push_at c task idx p.worker_data) _ p
      (push_at-GrownBy i c task idx p.worker_data)
submit_step-Logged i c (waiting task idx) p =
    pushed_or-Logged i task idx (push_at c task idx p.worker_data) _ p
      (push_at-GrownBy i c task idx p.worker_data)
submit_step-Logged i c counting p = same-Grown i p.worker_data
submit_step-Logged i c (finished b) p = same-Grown i p.worker_data

-- The history of each thread is what was pushed into its queue.
abbrev IsOrdered : System → Type 0
IsOrdered s =
    (i : ℕ) (d : WorkerData) → get_elem? s.pool.worker_data i ≡ some d → given i s.log ≡ history d

act-IsOrdered : (c : ℕ) (a : Act) (s : System) → IsOrdered s → IsOrdered (act c a s)
unfolding act
act-IsOrdered c (submits j task k) s o i d h = o i d h
act-IsOrdered c (advances j) s o i d h =
    let r = submit_step c (s.producers j) s.pool in
    let (d0, (h0, e)) = submit_step-Logged i c (s.producers j) s.pool d h in
    given-append i s.log r.1 ∙ ap (λ x. x ++ given i r.1) (o i d0 h0) ∙ sym e
act-IsOrdered c (works j) s o i d h =
    let (d0, (h0, e)) = work_at-Grown i j s.pool.worker_data s.pool d h in
    o i d0 h0 ∙ sym (e ∙ append-nil (history d0))
act-IsOrdered c stops s o i d h = o i d h

act_all-IsOrdered :
    (c : ℕ) (acts : List Act) (s : System) → IsOrdered s → IsOrdered (act_all c acts s)
unfolding act_all
act_all-IsOrdered c [] s o = o
act_all-IsOrdered c (a ∷ acts) s o = act_all-IsOrdered c acts (act c a s) (act-IsOrdered c a s o)

fresh-history : (n i : ℕ) (d : WorkerData) → get_elem? (fresh_workers n) i ≡ some d → history d ≡ []
fresh-history zero i d h = cc
fresh-history (suc n) zero d h =
    let same : record { queue = []; batch = []; count = 0; executed = []; phase = popping } ≡ d =
      cc in
    ap history (sym same)
fresh-history (suc n) (suc i) d h = fresh-history n i d h

started-IsOrdered : (n : ℕ) → IsOrdered (started n)
unfolding start given
started-IsOrdered n i d h = sym (fresh-history (new_thread_pool n).thread_count i d h)

-- However the threads that submit, the threads of the pool and a `Stop` interleave, each at its single
-- accesses of what they share: the tasks that were pushed into the queue of a thread, in the order of
-- the pushes, are those that the thread has run, then those left of its batch, then those that wait.
-- So no task of a queue is lost, run twice, replaced, or run out of turn.
pub run_in_order :
    (n capacity : ℕ) (acts : List Act) (i : ℕ) (d : WorkerData)
    → get_elem? (act_all capacity acts (started n)).pool.worker_data i ≡ some d
    → given i (act_all capacity acts (started n)).log ≡ d.executed ++ (d.batch ++ d.queue)
run_in_order n capacity acts i d h =
    act_all-IsOrdered capacity acts (started n) (started-IsOrdered n) i d h
