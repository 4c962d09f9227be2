-- ===== src/Pending/Leak.antt =====
-- What `FailTimedOut` leaves in the table for a call that is bound to a promise.
use text.Mathlib.Text.{◌==◌ as str_eq}
use mini_rpc.Prelude.{
  ℕ, ◌≤◌, ◌≡◌, String, none, some, Bool, true, false, List, [], ◌∷◌, arith, inl, inr, Option-cases,
  lookup, erase, lookup-update, lookup-erase, eq_iff,
}
use mini_rpc.RpcError.{RpcCallResult}
use mini_rpc.Pending.{
  Slot, Slots, Wakes, Op, adds, binds_async, binds_coroutine, completes, begins_wait, ends_wait,
  pops, removes, fails_all, fails_timed_out, add, bind_async, bind_coroutine, complete, fail_slot,
  time_out_slot, sweep, fail_timed_out, step, run,
}
use mini_rpc.Pending.Invariant.{IsSound, IsValid, lookup-IsSound, step-IsValid}

-- The operations that take a call out of the table on a caller's behalf.
abbrev pub takes : String → Op → Bool
takes id (begins_wait other) = str_eq other id
takes id (ends_wait other ready) = str_eq other id
takes id (pops other) = str_eq other id
takes id (removes other) = str_eq other id
takes id _ = false

abbrev pub TakeNone : String → List Op → Type 0
TakeNone id [] = Unit {0}
TakeNone id (op ∷ ops) = (takes id op ≡ false) × TakeNone id ops

-- Done, bound to a promise, and the promise gone.
pub record IsSpent (t : Slot) : Type 0 where
  pub over : t.done ≡ true
  pub was_async : t.async_bound ≡ true
  pub settled : t.async_promise ≡ none
  pub no_coroutine : t.coroutine_bound ≡ false

abbrev pub Spent : String → Slots → Type 0
Spent id s = (t : Slot) × (lookup id s ≡ some t) × IsSpent t

sweep-lookup :
    (body : String → Slot → Slot × Wakes) (id : String) (t : Slot) (s : Slots)
    → lookup id s ≡ some t
    → lookup id (sweep body s).0 ≡ some (body id t).0
unfolding sweep
sweep-lookup body id t [] h = cc
sweep-lookup body id t ((j, u) ∷ s) h = ground (arith, eq_iff j id, sweep-lookup body id t s)

-- No operation that does not take the call out of the table moves a spent slot.
module _ (id : String) (s : Slots) (v : IsValid s) (t : Slot) (e : lookup id s ≡ some t)
    (h : IsSpent t) where
  add-spent : (other : String) → lookup id (add other s).1 ≡ some t
  unfolding add
  add-spent other = ground (arith, eq_iff other id)

  complete-spent : (other : String) (r : RpcCallResult) → lookup id (complete other r s).1 ≡ some t
  unfolding complete
  complete-spent other r = elim (Option-cases (lookup other s)) [
    | inl none_there ↦ rw (none_there, complete) e
    | inr (u, there) ↦
        rw (there, complete)
          (ground (
            arith,
            eq_iff other id,
            lookup-erase other id s v.unique,
            lookup-update other id (record u { done = true; result = r }) u s there,
            lookup-update other id
                (record u {
                  done = true;
                  result = r;
                  coroutine_bound = false;
                  coroutine_handle = none;
                })
                u s there,
          ))
  ]

  bind_async-spent : (other : String) (p d : ℕ) → lookup id (bind_async other p d s).1 ≡ some t
  unfolding bind_async
  bind_async-spent other p d = elim (Option-cases (lookup other s)) [
    | inl none_there ↦ rw (none_there, bind_async) e
    | inr (u, there) ↦
        rw (there, bind_async)
          (ground (
            arith,
            eq_iff other id,
            lookup-erase other id s v.unique,
            lookup-update other id
                (record u { async_promise = some p; async_bound = true; deadline = d }) u s there,
          ))
  ]

  bind_coroutine-spent :
      (other : String) (k d : ℕ) → lookup id (bind_coroutine other k d s).1 ≡ some t
  unfolding bind_coroutine
  bind_coroutine-spent other k d = elim (Option-cases (lookup other s)) [
    | inl none_there ↦ rw (none_there, bind_coroutine) e
    | inr (u, there) ↦
        rw (there, bind_coroutine)
          (ground (
            arith,
            eq_iff other id,
            lookup-update other id
                (record u { coroutine_handle = some k; coroutine_bound = true; deadline = d }) u s
                there,
          ))
  ]

  erase-spent : (other : String) → str_eq other id ≡ false → lookup id (erase other s) ≡ some t
  erase-spent other apart = rw (lookup-erase other id s v.unique, apart) e

fail_slot-IsSpent :
    (r : RpcCallResult) (id : String) (t : Slot) → IsSpent t → IsSpent (fail_slot r id t).0
unfolding fail_slot
fail_slot-IsSpent r id t h = ground arith

time_out_slot-IsSpent :
    (now : ℕ) (r : RpcCallResult) (id : String) (t : Slot)
    → IsSpent t
    → IsSpent (time_out_slot now r id t).0
unfolding time_out_slot
time_out_slot-IsSpent now r id t h = ground arith

step-Spent :
    (id : String) (op : Op) (s : Slots)
    → takes id op ≡ false
    → IsValid s
    → Spent id s
    → Spent id (step op s).0
unfolding step
step-Spent id (adds other) s n v (t, e, h) = (t, add-spent id s v t e h other, h)
step-Spent id (binds_async other p d) s n v (t, e, h) =
    (t, bind_async-spent id s v t e h other p d, h)
step-Spent id (binds_coroutine other k d) s n v (t, e, h) =
    (t, bind_coroutine-spent id s v t e h other k d, h)
step-Spent id (completes other r) s n v (t, e, h) = (t, complete-spent id s v t e h other r, h)
step-Spent id (begins_wait other) s n v (t, e, h) =
    (t, ground (arith, erase-spent id s v t e h other n), h)
step-Spent id (ends_wait other ready) s n v (t, e, h) =
    (t, ground (arith, erase-spent id s v t e h other n), h)
step-Spent id (pops other) s n v (t, e, h) =
    (t, ground (arith, erase-spent id s v t e h other n), h)
step-Spent id (removes other) s n v (t, e, h) = (t, erase-spent id s v t e h other n, h)
step-Spent id (fails_all r) s n v (t, e, h) =
    ((fail_slot r id t).0, sweep-lookup (fail_slot r) id t s e, fail_slot-IsSpent r id t h)
step-Spent id (fails_timed_out now r) s n v (t, e, h) = (
  (time_out_slot now r id t).0,
  sweep-lookup (time_out_slot now r) id t s e,
  time_out_slot-IsSpent now r id t h,
)

run-Spent :
    (id : String) (ops : List Op) (s : Slots)
    → TakeNone id ops
    → IsValid s
    → Spent id s
    → Spent id (run ops s).0
unfolding run
run-Spent id [] s n v h = h
run-Spent id (op ∷ ops) s n v h =
    run-Spent id ops (step op s).0 n.1 (step-IsValid op s v) (step-Spent id op s n.0 v h)

time_out_slot-expired :
    (now : ℕ) (r : RpcCallResult) (id : String) (t : Slot)
    → IsSound t
    → t.async_bound ≡ true
    → t.done ≡ false
    → t.deadline ≤ now
    → IsSpent (time_out_slot now r id t).0
unfolding time_out_slot
time_out_slot-expired now r id t h a d l = ground arith

-- A call bound to a promise whose deadline has passed is failed by `FailTimedOut`, but its slot is
-- not erased, and no later response, sweep, bind or call erases it: it stays until somebody pops,
-- waits for or removes that id.
pub timed_out_async_stays :
    (id : String) (now : ℕ) (r : RpcCallResult) (s : Slots) {t : Slot} (later : List Op)
    → IsValid s
    → lookup id s ≡ some t
    → t.async_bound ≡ true
    → t.done ≡ false
    → t.deadline ≤ now
    → TakeNone id later
    → Spent id (run later (fail_timed_out now r s).0).0
unfolding fail_timed_out step
timed_out_async_stays id now r s {t} later v e a d l n =
    run-Spent id later (fail_timed_out now r s).0 n (step-IsValid (fails_timed_out now r) s v) (
      (time_out_slot now r id t).0,
      sweep-lookup (time_out_slot now r) id t s e,
      time_out_slot-expired now r id t (lookup-IsSound id s v.sound e) a d l,
    )
