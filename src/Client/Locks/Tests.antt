-- ===== src/Client/Locks/Tests.antt =====
-- A caller and a dispatcher that come to wait for each other.
use mini_rpc.Prelude.{◌≡◌, ◌⊎◌, refl, none, some, true, false, List, [], ◌∷◌}
use mini_rpc.Client.Locks.{
  locking, writing, closing, joining, answered, testing, locking_beat, caller, Locks, caller_step,
  dispatcher_step, Step, calls, beats, step, steps,
}
use mini_rpc.Client.Locks.Deadlock.{write_failure_deadlocks}

abbrev both_start : Locks
both_start = record {
  write_mu = none;
  dispatcher_running = true;
  at_caller = locking;
  at_dispatcher = testing;
}

-- Without a heartbeat the caller comes back.
comes_back :
    (steps
      (calls true
        ∷ calls true
        ∷ calls true
        ∷ beats false
        ∷ beats false
        ∷ beats false
        ∷ calls true
        ∷ [])
      both_start).at_caller
    ≡ answered
unfolding steps step caller_step dispatcher_step
comes_back = refl

-- The heartbeat is due while the caller writes.
abbrev meeting : Locks
meeting = record {
  write_mu = some caller;
  dispatcher_running = true;
  at_caller = writing;
  at_dispatcher = locking_beat;
}

they_meet : steps (calls true ∷ beats true ∷ beats true ∷ []) both_start ≡ meeting
unfolding steps step caller_step dispatcher_step
they_meet = refl

abbrev later : List Step
later = calls true ∷ calls true ∷ beats false ∷ calls true ∷ []

write_failure_deadlocks_example :
    (((steps (calls true ∷ later) meeting).at_caller ≡ closing)
      ⊎ ((steps (calls true ∷ later) meeting).at_caller ≡ joining))
    × ((steps (calls true ∷ later) meeting).at_dispatcher ≡ locking_beat)
write_failure_deadlocks_example = write_failure_deadlocks meeting later refl refl refl
