-- ===== src/ThreadPool.antt =====
-- common/thread_pool.cpp: a queue of tasks for each thread, the search of `Submit` for a queue with
-- room, and the loop of `WorkerMain`. A task is a number that names it, and each queue is the list of
-- tasks that Ring refines. `submit` is a call that no other thread disturbs; `submit_step` and
-- `work_step` cut a call and the loop at each access of what the threads share. The condition variables
-- are left out, so a thread may go on waiting or wake at any time, and so is the counter `pending`.
pub mod Order
pub mod Room
mod Tests
use mini_rpc.Prelude.{
  ℕ, zero, suc, ◌+◌, ◌-◌, ◌%◌, ◌==◌, ltb, String, Option, none, some, Bool, true, false, not, List,
  [], ◌∷◌, ◌++◌, length, take, drop, if◌then◌else◌,
}

-- Where a thread of the pool is: it fills its batch; it has found its queue empty; it holds a batch;
-- it runs it; it has run it, and is no longer active; its function has returned.
pub data Phase : Type 0 where
  popping empty_handed holding running leaving returned : Phase

-- One thread: its queue, what is left of its batch, how many tasks the batch had, and what has run.
pub record WorkerData : Type 0 where
  pub queue : List ℕ
  pub batch : List ℕ
  pub count : ℕ
  pub executed : List ℕ
  pub phase : Phase

pub record ThreadPool : Type 0 where
  pub thread_count : ℕ
  pub worker_data : List WorkerData
  pub accepting_tasks : Bool
  pub stop_requested : Bool
  pub active_workers : ℕ
  pub submitted_tasks : ℕ
  pub completed_tasks : ℕ

abbrev pub batch_size : ℕ
batch_size = 32

abbrev pub new_thread_pool : ℕ → ThreadPool
new_thread_pool thread_count = record {
  thread_count = if thread_count == 0 then 1 else thread_count;
  worker_data = [];
  accepting_tasks = false;
  stop_requested = false;
  active_workers = 0;
  submitted_tasks = 0;
  completed_tasks = 0;
}

abbrev pub fresh_workers : ℕ → List WorkerData
fresh_workers zero = []
fresh_workers (suc n) =
    record { queue = []; batch = []; count = 0; executed = []; phase = popping } ∷ fresh_workers n

-- The error text, or none. All the threads can be created.
unfoldable pub start : ThreadPool → Option String × ThreadPool
start p = elim p.worker_data [
  | [] ↦ (
    none,
    record p {
      worker_data = fresh_workers p.thread_count;
      accepting_tasks = true;
      stop_requested = false;
    },
  )
  | d ∷ ds ↦ (some "thread pool already started", p)
]

-- `TryPush` on the queue with this number, of a given capacity; none where it is full.
pub push_at : ℕ → ℕ → ℕ → List WorkerData → Option (List WorkerData)
push_at capacity task i [] = none
push_at capacity task zero (d ∷ ds) =
    if ltb (length d.queue) capacity
    then some (record d { queue = d.queue ++ task ∷ [] } ∷ ds)
    else none
push_at capacity task (suc i) (d ∷ ds) = elim (push_at capacity task i ds) [
  | none ↦ none
  | some ds' ↦ some (d ∷ ds')
]

-- How a call of `Submit` stands: it returns, or it waits for room in the queue with this number.
pub data Submitted : Type 0 where
  returns : Bool → Submitted
  blocked : ℕ → Submitted

abbrev pub counted : List WorkerData → ThreadPool → ThreadPool
counted ds p = record p { worker_data = ds; submitted_tasks = p.submitted_tasks + 1 }

-- The loop over the attempts.
pub attempts : ℕ → ℕ → ℕ → ℕ → ThreadPool → Submitted × ThreadPool
unfolding push_at
attempts capacity task zero idx p = (blocked idx, p)
attempts capacity task (suc n) idx p =
    let rest = attempts capacity task n ((idx + 1) % p.thread_count) p in
    elim (push_at capacity task idx p.worker_data) [
      | none ↦ rest
      | some ds ↦ (returns true, counted ds p)
    ]

-- `Submit`, up to its wait. `none` is an empty `std::function`; the caller's `local_index` comes back
-- counted up, where it was used.
pub submit : ℕ → Option ℕ → ℕ → ThreadPool → (Submitted × ThreadPool) × ℕ
unfolding attempts
submit capacity none local_index p = ((returns false, p), local_index)
submit capacity (some task) local_index p =
    if not p.accepting_tasks
    then ((returns false, p), local_index)
    else (attempts capacity task p.thread_count (local_index % p.thread_count) p, suc local_index)

-- A round of the loop in which `Submit` waits.
pub retry : ℕ → ℕ → ℕ → ThreadPool → Submitted × ThreadPool
unfolding push_at
retry capacity task idx p = elim (push_at capacity task idx p.worker_data) [
  | some ds ↦ (returns true, counted ds p)
  | none ↦ if not p.accepting_tasks then (returns false, p) else (blocked idx, p)
]

abbrev pub stop : ThreadPool → ThreadPool
stop p = record p { accepting_tasks = false; stop_requested = true }

-- `PopBatch` has ended.
abbrev pub end_popping : WorkerData → WorkerData
end_popping d = record d {
  count = length d.batch;
  phase = if length d.batch == 0 then empty_handed else holding;
}

-- One `TryPopOne` of `PopBatch`.
pub pop_one : List ℕ → WorkerData → WorkerData
pop_one [] d = end_popping d
pop_one (t ∷ ts) d =
    if ltb (length d.batch) batch_size
    then record d { queue = ts; batch = d.batch ++ t ∷ [] }
    else end_popping d

-- The next task of the batch, whether or not it throws; or the end of the loop over the batch.
pub run_one : List ℕ → WorkerData → ThreadPool → WorkerData × ThreadPool
run_one [] d p = (record d { phase = leaving }, record p { active_workers = p.active_workers - 1 })
run_one (t ∷ ts) d p = (record d { batch = ts; executed = d.executed ++ t ∷ [] }, p)

-- The next step of a thread. One that finds its queue empty looks at the flag afterwards.
pub work_step : Phase → WorkerData → ThreadPool → WorkerData × ThreadPool
unfolding pop_one run_one
work_step popping d p = (pop_one d.queue d, p)
work_step empty_handed d p =
    (record d { phase = if p.stop_requested then returned else popping }, p)
work_step holding d p =
    (record d { phase = running }, record p { active_workers = p.active_workers + 1 })
work_step running d p = run_one d.batch d p
work_step leaving d p = (
  record d { count = 0; phase = popping },
  record p { completed_tasks = p.completed_tasks + d.count },
)
work_step returned d p = (d, p)

pub work_at : ℕ → List WorkerData → ThreadPool → List WorkerData × ThreadPool
unfolding work_step
work_at i [] p = ([], p)
work_at zero (d ∷ ds) p = let (d', p') = work_step d.phase d p in (d' ∷ ds, p')
work_at (suc i) (d ∷ ds) p = let (ds', p') = work_at i ds p in (d ∷ ds', p')

-- Where a thread is in `Submit`: in no call; before the test of `accepting_tasks_`, with its task and
-- its `local_index`; in the search, with the attempts that are left and the queue that comes next; in
-- the wait for a queue; between a push and its counting; at the end.
pub data Producer : Type 0 where
  idle : Producer
  entering : ℕ → ℕ → Producer
  trying : ℕ → ℕ → ℕ → Producer
  waiting : ℕ → ℕ → Producer
  counting : Producer
  finished : Bool → Producer

-- A push into the queue `idx`, and the log of the pushes; or what follows a full queue.
pub pushed_or :
    ℕ
    → ℕ
    → Option (List WorkerData)
    → Producer
    → ThreadPool
    → (Producer × ThreadPool) × List (ℕ × ℕ)
pushed_or task idx none next p = ((next, p), [])
pushed_or task idx (some ds) next p = ((counting, record p { worker_data = ds }), (idx, task) ∷ [])

pub submit_step : ℕ → Producer → ThreadPool → (Producer × ThreadPool) × List (ℕ × ℕ)
unfolding push_at pushed_or
submit_step capacity idle p = ((idle, p), [])
submit_step capacity (entering task local_index) p =
    let next : Producer =
      if not p.accepting_tasks
      then finished false
      else trying task p.thread_count (local_index % p.thread_count) in
    ((next, p), [])
submit_step capacity (trying task zero idx) p = ((waiting task idx, p), [])
submit_step capacity (trying task (suc n) idx) p =
    pushed_or task idx (push_at capacity task idx p.worker_data)
      (trying task n ((idx + 1) % p.thread_count)) p
submit_step capacity (waiting task idx) p =
    pushed_or task idx (push_at capacity task idx p.worker_data)
      (if not p.accepting_tasks then finished false else waiting task idx) p
submit_step capacity counting p =
    ((finished true, record p { submitted_tasks = p.submitted_tasks + 1 }), [])
submit_step capacity (finished b) p = ((finished b, p), [])

-- The pool, the threads that submit, by number, and every push, with its queue, in order.
pub record System : Type 0 where
  pub pool : ThreadPool
  pub producers : ℕ → Producer
  pub log : List (ℕ × ℕ)

-- What happens, in any order: a thread calls `Submit` (with an empty function it returns at once); it
-- takes its next step; a thread of the pool takes its next step; another calls `Stop`.
pub data Act : Type 0 where
  submits : ℕ → Option ℕ → ℕ → Act
  advances : ℕ → Act
  works : ℕ → Act
  stops : Act

abbrev pub enter : Option ℕ → ℕ → Producer → Producer
enter none local_index idle = finished false
enter none local_index (finished b) = finished false
enter (some task) local_index idle = entering task local_index
enter (some task) local_index (finished b) = entering task local_index
enter task local_index q = q

abbrev pub set_producer : ℕ → Producer → (ℕ → Producer) → ℕ → Producer
set_producer i q qs j = if j == i then q else qs j

unfoldable pub act : ℕ → Act → System → System
unfolding submit_step work_at
act capacity (submits i task local_index) s = record s {
  producers = set_producer i (enter task local_index (s.producers i)) s.producers;
}
act capacity (advances i) s =
    let ((q, p), pushes) = submit_step capacity (s.producers i) s.pool in
    record s { pool = p; producers = set_producer i q s.producers; log = s.log ++ pushes }
act capacity (works i) s =
    let (ds, p) = work_at i s.pool.worker_data s.pool in
    record s { pool = record p { worker_data = ds } }
act capacity stops s = record s { pool = stop s.pool }

pub act_all : ℕ → List Act → System → System
unfolding act
act_all capacity [] s = s
act_all capacity (a ∷ acts) s = act_all capacity acts (act capacity a s)

-- A pool of threads that has been started, and nobody who submits.
abbrev pub started : ℕ → System
started n = record { pool = (start (new_thread_pool n)).1; producers = λ i. idle; log = [] }
