-- ===== src/Client/Locks.antt =====
-- `write_mu_` and the dispatcher thread of client/rpc_client.cpp: a caller that writes its request under
-- the lock and, where that fails, closes the client under it, which joins the dispatcher; and the
-- dispatcher, which takes the same lock for a heartbeat.
pub mod Deadlock
mod Tests
use mini_rpc.Prelude.{Option, none, some, Bool, true, false, List, [], ◌∷◌, if◌then◌else◌}

-- Where the calling thread is: before the lock; in `WriteMessage`; at the start of `Close`; in
-- `to_join.join()`; after the lock.
pub data Caller : Type 0 where
  locking writing closing joining answered : Caller

-- Where the dispatcher is: at the test of its loop; in `WaitOnce` and what follows but a heartbeat;
-- before the lock of `SendHeartbeatRequest`; in its `WriteMessage`; at its end.
pub data Beat : Type 0 where
  testing waiting locking_beat writing_beat ended : Beat

pub data Owner : Type 0 where
  caller dispatcher : Owner

pub record Locks : Type 0 where
  pub write_mu : Option Owner
  pub dispatcher_running : Bool
  pub at_caller : Caller
  pub at_dispatcher : Beat

-- `WriteMessage` fails or not; the lock is released at the end of its scope.
pub caller_step : Bool → Caller → Locks → Locks
caller_step fails locking s = elim s.write_mu [
  | none ↦ record s { write_mu = some caller; at_caller = writing }
  | some owner ↦ s
]
caller_step fails writing s =
    if fails
    then record s { at_caller = closing }
    else record s { write_mu = none; at_caller = answered }
caller_step fails closing s = record s { dispatcher_running = false; at_caller = joining }
caller_step fails joining s = elim s.at_dispatcher [
  | ended ↦ record s { write_mu = none; at_caller = answered }
  | testing ↦ s
  | waiting ↦ s
  | locking_beat ↦ s
  | writing_beat ↦ s
]
caller_step fails answered s = s

-- A round may find that a heartbeat is due.
pub dispatcher_step : Bool → Beat → Locks → Locks
dispatcher_step due testing s = record s {
  at_dispatcher = if s.dispatcher_running then waiting else ended;
}
dispatcher_step due waiting s = record s { at_dispatcher = if due then locking_beat else testing }
dispatcher_step due locking_beat s = elim s.write_mu [
  | none ↦ record s { write_mu = some dispatcher; at_dispatcher = writing_beat }
  | some owner ↦ s
]
dispatcher_step due writing_beat s = record s { write_mu = none; at_dispatcher = testing }
dispatcher_step due ended s = s

-- Which thread takes its next step, with what it meets.
pub data Step : Type 0 where
  calls : Bool → Step
  beats : Bool → Step

pub step : Step → Locks → Locks
unfolding caller_step dispatcher_step
step (calls fails) s = caller_step fails s.at_caller s
step (beats due) s = dispatcher_step due s.at_dispatcher s

pub steps : List Step → Locks → Locks
unfolding step
steps [] s = s
steps (x ∷ xs) s = steps xs (step x s)
