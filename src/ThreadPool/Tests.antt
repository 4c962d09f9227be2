-- ===== src/ThreadPool/Tests.antt =====
-- A pool of one thread that two others submit to, a full pool, and the theorems at that input.
use mini_rpc.Prelude.{◌≤◌, ◌≡◌, ◌++◌, refl, some, true, false, List, [], ◌∷◌, length, arith}
use mini_rpc.ThreadPool.{
  running, WorkerData, ThreadPool, new_thread_pool, start, push_at, attempts, submit, pop_one,
  run_one, work_step, work_at, finished, pushed_or, submit_step, System, Act, submits, advances,
  works, stops, act, act_all, started,
}
use mini_rpc.ThreadPool.Order.{given, run_in_order}
use mini_rpc.ThreadPool.Room.{submit_waits_only_when_full}

-- Two threads submit three tasks to a pool of one thread; the second push is done before the first is
-- counted, and the third comes after a stop.
abbrev acts : List Act
acts =
    submits 0 (some 5) 0
    ∷ submits 1 (some 6) 3
    ∷ advances 0
    ∷ advances 0
    ∷ advances 1
    ∷ advances 1
    ∷ works 0
    ∷ advances 0
    ∷ stops
    ∷ submits 2 (some 7) 0
    ∷ advances 2
    ∷ works 0
    ∷ works 0
    ∷ works 0
    ∷ works 0
    ∷ []

one_has_run :
    let s : System = act_all 4 acts (started 1) in
    (s.log ≡ (0, 5) ∷ (0, 6) ∷ [])
    × (s.pool.submitted_tasks ≡ 1)
    × (s.producers 2 ≡ finished false)
    × (s.pool.worker_data
        ≡ record { queue = []; batch = 6 ∷ []; count = 2; executed = 5 ∷ []; phase = running } ∷ [])
unfolding act_all act start submit_step pushed_or push_at work_at work_step pop_one run_one
one_has_run = (refl, refl, refl, refl)

run_in_order_example : given 0 (act_all 4 acts (started 1)).log ≡ (5 ∷ []) ++ ((6 ∷ []) ++ [])
unfolding act_all act start submit_step pushed_or push_at work_at work_step pop_one run_one
run_in_order_example =
    run_in_order 1 4 acts 0
      (record { queue = []; batch = 6 ∷ []; count = 2; executed = 5 ∷ []; phase = running }) refl

-- One task in each queue of one.
abbrev full : WorkerData
full = record { queue = 3 ∷ []; batch = []; count = 0; executed = []; phase = running }

abbrev full_pool : ThreadPool
full_pool = record (new_thread_pool 2) {
  worker_data = full ∷ full ∷ [];
  accepting_tasks = true;
  submitted_tasks = 2;
}

submit_waits_only_when_full_example : 1 ≤ length full.queue
unfolding submit attempts push_at
submit_waits_only_when_full_example =
    submit_waits_only_when_full 1 9 5 1 0 full_pool full refl refl (omega arith)
