-- ===== src/Pending/Results.antt =====
-- Which result a caller gets, and what stays in the table.
use mini_rpc.Prelude.{
  ◌⊎◌, ◌≢◌, ◌≡◌, String, none, some, true, false, [], arith, inl, inr, Option-cases, lookup,
  lookup-update, lookup-erase, eq_iff, eq_refl,
}
use mini_rpc.RpcError.{RpcCallResult}
use mini_rpc.Pending.{Slot, Slots, complete, try_pop}
use mini_rpc.Pending.Invariant.{IsValid, lookup-IsSound}

-- What a completed call leaves behind: nothing, or a slot that is done and that holds its result.
complete-lookup :
    (id : String) (r : RpcCallResult) (s : Slots)
    → IsValid s
    → (complete id r s).0 ≡ true
    → (lookup id (complete id r s).1 ≡ none)
      ⊎ ((t : Slot) × (lookup id (complete id r s).1 ≡ some t) × (t.done ≡ true) × (t.result ≡ r))
unfolding complete
complete-lookup id r s v h = elim (Option-cases (lookup id s)) [
  | inl e ↦ cc (rw (e, complete) at h)
  | inr (slot, e) ↦
      rw (e, complete)
        (ground (
          arith,
          rw (e, complete) at h,
          eq_refl id,
          lookup-erase id id s v.unique,
          lookup-update id id (record slot { done = true; result = r }) slot s e,
          lookup-update id id
              (record slot {
                done = true;
                result = r;
                coroutine_bound = false;
                coroutine_handle = none;
              })
              slot s e,
        ))
]

complete-idle :
    (id : String) (r : RpcCallResult) (s : Slots)
    → (lookup id s ≡ none) ⊎ ((t : Slot) × (lookup id s ≡ some t) × (t.done ≡ true))
    → complete id r s ≡ (false, s, [])
unfolding complete
complete-idle id r s (inl e) = rw (e, complete)
complete-idle id r s (inr (t, e, d)) = rw (e, complete) (rw d)

-- In a table that is in shape, the first result counts: once `Complete` has succeeded, a second
-- response with the same id is refused, changes nothing and wakes nobody.
pub complete_twice :
    (id : String) (r later : RpcCallResult) (s : Slots)
    → IsValid s
    → (complete id r s).0 ≡ true
    → complete id later (complete id r s).1 ≡ (false, (complete id r s).1, [])
complete_twice id r later s v h =
    complete-idle id later (complete id r s).1
      (elim (complete-lookup id r s v h) [ inl e ↦ inl e | inr (t, e, d, same) ↦ inr (t, e, d) ])

-- In a table that is in shape, the response to a call that is not done and not bound to a promise
-- is what its caller pops.
pub try_pop-complete :
    (id : String) (r : RpcCallResult) (s : Slots) {slot : Slot}
    → IsValid s
    → lookup id s ≡ some slot
    → slot.done ≡ false
    → slot.async_bound ≡ false
    → (try_pop id (complete id r s).1).0 ≡ some r
unfolding complete try_pop
try_pop-complete id r s {slot} v e pending plain =
    rw (e, complete)
      (ground (
        arith,
        eq_refl id,
        lookup-IsSound id s v.sound e,
        lookup-update id id (record slot { done = true; result = r }) slot s e,
        lookup-update id id
            (record slot {
              done = true;
              result = r;
              coroutine_bound = false;
              coroutine_handle = none;
            })
            slot s e,
      ))

-- In a table that is in shape, a response touches no call with another id.
pub complete-frame :
    (id other : String) (r : RpcCallResult) (s : Slots)
    → IsValid s
    → id ≢ other
    → lookup other (complete id r s).1 ≡ lookup other s
unfolding complete
complete-frame id other r s v ne = elim (Option-cases (lookup id s)) [
  | inl e ↦ rw (e, complete)
  | inr (slot, e) ↦
      rw (e, complete)
        (ground (
          arith,
          eq_iff id other,
          lookup-erase id other s v.unique,
          lookup-update id other (record slot { done = true; result = r }) slot s e,
          lookup-update id other
              (record slot {
                done = true;
                result = r;
                coroutine_bound = false;
                coroutine_handle = none;
              })
              slot s e,
        ))
]
