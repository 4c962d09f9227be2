-- ===== src/Pending/Invariant.antt =====
-- The shape of the table between operations.
use text.Mathlib.Text.{◌==◌ as str_eq}
use mathlib.Core.Path.{subst}
use mini_rpc.Prelude.{
  ℕ, ◌≡◌, refl, String, none, some, true, false, List, [], ◌∷◌, arith, inl, inr, Bool-cases,
  Option-cases, some_inj, is_some, lookup, update, erase, IsUnique, update-IsUnique, erase-IsUnique,
}
use mini_rpc.RpcError.{RpcCallResult}
use mini_rpc.Pending.{
  Slot, Slots, Wakes, Op, adds, binds_async, binds_coroutine, completes, begins_wait, ends_wait,
  pops, removes, fails_all, fails_timed_out, add, bind_async, bind_coroutine, complete, fail_slot,
  time_out_slot, sweep, step, run,
}

-- A call is waited for in one way at most; a call that is done has nobody left to wake; a call that
-- is bound to a promise and not done still has the promise.
pub record IsSound (s : Slot) : Type 0 where
  pub one_mode : s.async_bound ≡ true → s.coroutine_bound ≡ false
  pub handle_there : s.coroutine_bound ≡ is_some s.coroutine_handle
  pub promise_bound : is_some s.async_promise ≡ true → s.async_bound ≡ true
  pub promise_there : s.async_bound ≡ true → s.done ≡ false → is_some s.async_promise ≡ true
  pub no_promise : s.done ≡ true → s.async_promise ≡ none
  pub no_handle : s.done ≡ true → s.coroutine_handle ≡ none

abbrev pub AllSound : Slots → Type 0
AllSound [] = Unit {0}
AllSound ((id, s) ∷ slots) = (str_eq id "" ≡ false) × IsSound s × AllSound slots

pub record IsValid (slots : Slots) : Type 0 where
  pub unique : IsUnique slots
  pub sound : AllSound slots

pub lookup-IsSound :
    (id : String) {s : Slot} (slots : Slots) → AllSound slots → lookup id slots ≡ some s → IsSound s
lookup-IsSound id [] a h = cc
lookup-IsSound id ((j, t) ∷ slots) a h = elim (Bool-cases (str_eq j id)) [
  | inl same ↦ subst IsSound (some_inj (rw same at h)) a.1
  | inr apart ↦ lookup-IsSound id slots a.2 (rw apart at h)
]

update-AllSound :
    (id : String) (s : Slot) (slots : Slots)
    → AllSound slots
    → IsSound s
    → AllSound (update id s slots)
update-AllSound id s [] a h = tt
update-AllSound id s ((j, t) ∷ slots) a h = ground (arith, update-AllSound id s slots a.2 h)

erase-AllSound : (id : String) (slots : Slots) → AllSound slots → AllSound (erase id slots)
erase-AllSound id [] a = tt
erase-AllSound id ((j, t) ∷ slots) a = ground (arith, erase-AllSound id slots a.2)

update-IsValid :
    (id : String) (s : Slot) (slots : Slots)
    → IsValid slots
    → IsSound s
    → IsValid (update id s slots)
update-IsValid id s slots v h = record {
  unique = update-IsUnique id s slots v.unique;
  sound = update-AllSound id s slots v.sound h;
}

erase-IsValid : (id : String) (slots : Slots) → IsValid slots → IsValid (erase id slots)
erase-IsValid id slots v = record {
  unique = erase-IsUnique id slots v.unique;
  sound = erase-AllSound id slots v.sound;
}

add-IsValid : (id : String) (slots : Slots) → IsValid slots → IsValid (add id slots).1
unfolding add
add-IsValid id slots v = ground arith

bind_async-IsValid :
    (id : String) (p d : ℕ) (slots : Slots) → IsValid slots → IsValid (bind_async id p d slots).1
unfolding bind_async
bind_async-IsValid id p d slots v = elim (Option-cases (lookup id slots)) [
  | inl e ↦ rw (e, bind_async) v
  | inr (s, e) ↦
      rw (e, bind_async)
        (ground (
          arith,
          lookup-IsSound id slots v.sound e,
          erase-IsValid id slots v,
          update-IsValid id (record s { async_promise = some p; async_bound = true; deadline = d })
              slots v,
        ))
]

bind_coroutine-IsValid :
    (id : String) (h d : ℕ) (slots : Slots)
    → IsValid slots
    → IsValid (bind_coroutine id h d slots).1
unfolding bind_coroutine
bind_coroutine-IsValid id h d slots v = elim (Option-cases (lookup id slots)) [
  | inl e ↦ rw (e, bind_coroutine) v
  | inr (s, e) ↦
      rw (e, bind_coroutine)
        (ground (
          arith,
          lookup-IsSound id slots v.sound e,
          update-IsValid id
              (record s { coroutine_handle = some h; coroutine_bound = true; deadline = d }) slots
              v,
        ))
]

complete-IsValid :
    (id : String) (r : RpcCallResult) (slots : Slots)
    → IsValid slots
    → IsValid (complete id r slots).1
unfolding complete
complete-IsValid id r slots v = elim (Option-cases (lookup id slots)) [
  | inl e ↦ rw (e, complete) v
  | inr (s, e) ↦
      rw (e, complete)
        (ground (
          arith,
          lookup-IsSound id slots v.sound e,
          erase-IsValid id slots v,
          update-IsValid id (record s { done = true; result = r }) slots v,
          update-IsValid id
              (record s {
                done = true;
                result = r;
                coroutine_bound = false;
                coroutine_handle = none;
              })
              slots v,
        ))
]

module _ (body : String → Slot → Slot × Wakes)
    (keep : (id : String) (s : Slot) → IsSound s → IsSound (body id s).0) where
  lookup-sweep :
      (id : String) (slots : Slots) → lookup id slots ≡ none → lookup id (sweep body slots).0 ≡ none
  unfolding sweep
  lookup-sweep id [] h = refl
  lookup-sweep id ((j, s) ∷ slots) h = ground (arith, lookup-sweep id slots)

  sweep-IsUnique : (slots : Slots) → IsUnique slots → IsUnique (sweep body slots).0
  unfolding sweep
  sweep-IsUnique [] u = tt
  sweep-IsUnique ((j, s) ∷ slots) u = (lookup-sweep j slots u.0, sweep-IsUnique slots u.1)

  sweep-AllSound : (slots : Slots) → AllSound slots → AllSound (sweep body slots).0
  unfolding sweep
  sweep-AllSound [] a = tt
  sweep-AllSound ((j, s) ∷ slots) a = (a.0, keep j s a.1, sweep-AllSound slots a.2)

  sweep-IsValid : (slots : Slots) → IsValid slots → IsValid (sweep body slots).0
  sweep-IsValid slots v = record {
    unique = sweep-IsUnique slots v.unique;
    sound = sweep-AllSound slots v.sound;
  }

fail_slot-IsSound :
    (r : RpcCallResult) (id : String) (s : Slot) → IsSound s → IsSound (fail_slot r id s).0
unfolding fail_slot
fail_slot-IsSound r id s h = ground arith

time_out_slot-IsSound :
    (now : ℕ) (r : RpcCallResult) (id : String) (s : Slot)
    → IsSound s
    → IsSound (time_out_slot now r id s).0
unfolding time_out_slot
time_out_slot-IsSound now r id s h = ground arith

pub step-IsValid : (op : Op) (slots : Slots) → IsValid slots → IsValid (step op slots).0
unfolding step
step-IsValid (adds id) s v = add-IsValid id s v
step-IsValid (binds_async id p d) s v = bind_async-IsValid id p d s v
step-IsValid (binds_coroutine id h d) s v = bind_coroutine-IsValid id h d s v
step-IsValid (completes id r) s v = complete-IsValid id r s v
step-IsValid (begins_wait id) s v = ground (arith, erase-IsValid id s v)
step-IsValid (ends_wait id ready) s v = ground (arith, erase-IsValid id s v)
step-IsValid (pops id) s v = ground (arith, erase-IsValid id s v)
step-IsValid (removes id) s v = erase-IsValid id s v
step-IsValid (fails_all r) s v = sweep-IsValid (fail_slot r) (fail_slot-IsSound r) s v
step-IsValid (fails_timed_out now r) s v =
    sweep-IsValid (time_out_slot now r) (time_out_slot-IsSound now r) s v

run-IsValid : (ops : List Op) (slots : Slots) → IsValid slots → IsValid (run ops slots).0
unfolding run
run-IsValid [] s v = v
run-IsValid (op ∷ ops) s v = run-IsValid ops (step op s).0 (step-IsValid op s v)

-- Every history that starts with an empty table keeps the table in shape: no request id is empty or
-- stands twice, and every slot is sound.
pub run-empty-IsValid : (ops : List Op) → IsValid (run ops []).0
run-empty-IsValid ops = run-IsValid ops [] (record { unique = tt; sound = tt })
