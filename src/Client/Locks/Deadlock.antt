-- ===== src/Client/Locks/Deadlock.antt =====
-- The deadlock of a caller that closes the client and a dispatcher that sends a heartbeat; and that
-- there is none without the heartbeat.
use mini_rpc.Prelude.{◌≡◌, ◌⊎◌, refl, inl, inr, Option, none, some, Bool, true, List, [], ◌∷◌}
use mini_rpc.Client.Locks.{
  Caller, locking, writing, closing, joining, answered, Beat, testing, waiting, locking_beat,
  writing_beat, ended, Owner, caller, Locks, caller_step, dispatcher_step, Step, calls, beats, step,
  steps,
}

-- The caller holds the lock, is past a failed write, and has not come back; the dispatcher waits for
-- the lock.
pub record IsDeadlocked (s : Locks) : Type 0 where
  pub held : s.write_mu ≡ some caller
  pub blocked : s.at_dispatcher ≡ locking_beat
  pub away : (s.at_caller ≡ closing) ⊎ (s.at_caller ≡ joining)

caller_step-IsDeadlocked :
    (fails : Bool) (at : Caller) (beat : Beat) (mu : Option Owner) (on : Bool)
    → mu ≡ some caller
    → beat ≡ locking_beat
    → (at ≡ closing) ⊎ (at ≡ joining)
    → let s : Locks = record {
      write_mu = mu;
      dispatcher_running = on;
      at_caller = at;
      at_dispatcher = beat;
    } in
      IsDeadlocked (caller_step fails at s)
unfolding caller_step
caller_step-IsDeadlocked fails closing beat mu on m e h = record {
  held = m;
  blocked = e;
  away = inr refl;
}
caller_step-IsDeadlocked fails joining locking_beat mu on m e h = record {
  held = m;
  blocked = refl;
  away = inr refl;
}
caller_step-IsDeadlocked fails joining testing mu on m e h = cc
caller_step-IsDeadlocked fails joining waiting mu on m e h = cc
caller_step-IsDeadlocked fails joining writing_beat mu on m e h = cc
caller_step-IsDeadlocked fails joining ended mu on m e h = cc
caller_step-IsDeadlocked fails locking beat mu on m e h = elim h [ inl x ↦ cc | inr x ↦ cc ]
caller_step-IsDeadlocked fails writing beat mu on m e h = elim h [ inl x ↦ cc | inr x ↦ cc ]
caller_step-IsDeadlocked fails answered beat mu on m e h = elim h [ inl x ↦ cc | inr x ↦ cc ]

dispatcher_step-IsDeadlocked :
    (due : Bool) (at : Caller) (beat : Beat) (mu : Option Owner) (on : Bool)
    → mu ≡ some caller
    → beat ≡ locking_beat
    → (at ≡ closing) ⊎ (at ≡ joining)
    → let s : Locks = record {
      write_mu = mu;
      dispatcher_running = on;
      at_caller = at;
      at_dispatcher = beat;
    } in
      IsDeadlocked (dispatcher_step due beat s)
unfolding dispatcher_step
dispatcher_step-IsDeadlocked due at locking_beat none on m e h = cc
dispatcher_step-IsDeadlocked due at locking_beat (some owner) on m e h = record {
  held = m;
  blocked = refl;
  away = h;
}
dispatcher_step-IsDeadlocked due at testing mu on m e h = cc
dispatcher_step-IsDeadlocked due at waiting mu on m e h = cc
dispatcher_step-IsDeadlocked due at writing_beat mu on m e h = cc
dispatcher_step-IsDeadlocked due at ended mu on m e h = cc

step-IsDeadlocked : (x : Step) (s : Locks) → IsDeadlocked s → IsDeadlocked (step x s)
unfolding step
step-IsDeadlocked (calls fails) s d =
    caller_step-IsDeadlocked fails s.at_caller s.at_dispatcher s.write_mu s.dispatcher_running
      d.held d.blocked d.away
step-IsDeadlocked (beats due) s d =
    dispatcher_step-IsDeadlocked due s.at_caller s.at_dispatcher s.write_mu s.dispatcher_running
      d.held d.blocked d.away

steps-IsDeadlocked : (xs : List Step) (s : Locks) → IsDeadlocked s → IsDeadlocked (steps xs s)
unfolding steps
steps-IsDeadlocked [] s d = d
steps-IsDeadlocked (x ∷ xs) s d = steps-IsDeadlocked xs (step x s) (step-IsDeadlocked x s d)

fails_under_lock :
    (at : Caller) (s : Locks)
    → at ≡ writing
    → s.write_mu ≡ some caller
    → s.at_dispatcher ≡ locking_beat
    → IsDeadlocked (caller_step true at s)
unfolding caller_step
fails_under_lock writing s e m b = record { held = m; blocked = b; away = inl refl }
fails_under_lock locking s e m b = cc
fails_under_lock closing s e m b = cc
fails_under_lock joining s e m b = cc
fails_under_lock answered s e m b = cc

-- Where a caller writes its request under the lock while the dispatcher waits for the lock to send a
-- heartbeat, and the write fails, neither thread gets on, whatever their next steps meet: the call
-- never comes back, and the dispatcher never ends.
pub write_failure_deadlocks :
    (s : Locks) (xs : List Step)
    → s.at_caller ≡ writing
    → s.write_mu ≡ some caller
    → s.at_dispatcher ≡ locking_beat
    → (((steps (calls true ∷ xs) s).at_caller ≡ closing)
        ⊎ ((steps (calls true ∷ xs) s).at_caller ≡ joining))
      × ((steps (calls true ∷ xs) s).at_dispatcher ≡ locking_beat)
unfolding steps step
write_failure_deadlocks s xs at m b =
    let d = steps-IsDeadlocked xs _ (fails_under_lock s.at_caller s at m b) in (d.away, d.blocked)
