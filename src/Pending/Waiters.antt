-- ===== src/Pending/Waiters.antt =====
-- Who waits for a call: the promises and coroutines that the table holds, counted with multiplicity.
use mini_rpc.Prelude.{
  ℕ, ◌+◌, ◌≡◌, String, Option, none, some, List, [], ◌∷◌, ◌++◌, arith, ◌==◌, if◌then◌else◌, lookup,
  update, erase,
}
use mini_rpc.Pending.{Slot, Slots, Effect, notify, set_value, resume, bound_handle}

pub data Waiter : Type 0 where
  promise : ℕ → Waiter
  coroutine : ℕ → Waiter

abbrev pub hits : Waiter → Waiter → ℕ
hits (promise a) (promise b) = if a == b then 1 else 0
hits (coroutine a) (coroutine b) = if a == b then 1 else 0
hits _ _ = 0

abbrev pub hits_promise : Waiter → Option ℕ → ℕ
hits_promise w none = 0
hits_promise w (some p) = hits w (promise p)

abbrev pub hits_coroutine : Waiter → Option ℕ → ℕ
hits_coroutine w none = 0
hits_coroutine w (some h) = hits w (coroutine h)

-- How often a slot holds a waiter that it can still wake.
abbrev pub held : Waiter → Slot → ℕ
held w s = hits_promise w s.async_promise + hits_coroutine w (bound_handle s)

-- How often the table holds it.
abbrev pub held_in : Waiter → Slots → ℕ
held_in w [] = 0
held_in w ((id, s) ∷ slots) = held w s + held_in w slots

-- How often a list of effects wakes it.
abbrev pub woken : Waiter → List Effect → ℕ
woken w [] = 0
woken w (notify id ∷ es) = woken w es
woken w (set_value p r ∷ es) = hits w (promise p) + woken w es
woken w (resume h ∷ es) = hits w (coroutine h) + woken w es

pub woken-append : (w : Waiter) (es fs : List Effect) → woken w (es ++ fs) ≡ woken w es + woken w fs
woken-append w [] fs = omega arith
woken-append w (notify id ∷ es) fs = woken-append w es fs
woken-append w (set_value p r ∷ es) fs = omega (arith, woken-append w es fs)
woken-append w (resume h ∷ es) fs = omega (arith, woken-append w es fs)

pub held_in-update :
    (w : Waiter) (id : String) (new old : Slot) (slots : Slots)
    → lookup id slots ≡ some old
    → held_in w (update id new slots) + held w old ≡ held_in w slots + held w new
held_in-update w id new old [] h = cc
held_in-update w id new old ((j, s) ∷ slots) h = ground (arith, held_in-update w id new old slots)

pub held_in-erase :
    (w : Waiter) (id : String) (old : Slot) (slots : Slots)
    → lookup id slots ≡ some old
    → held_in w (erase id slots) + held w old ≡ held_in w slots
held_in-erase w id old [] h = cc
held_in-erase w id old ((j, s) ∷ slots) h = ground (arith, held_in-erase w id old slots)
