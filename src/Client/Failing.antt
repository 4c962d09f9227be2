-- ===== src/Client/Failing.antt =====
-- A call whose request cannot be written.
use mini_rpc.Pending.Results.{try_pop-complete}
use mini_rpc.Prelude.{◌≡◌, refl, String, some, List, [], lookup}
use mini_rpc.Io.{err}
use mini_rpc.RpcError.{RpcCallResult}
use mini_rpc.Pending.{fresh_slot, Op, run}
use mini_rpc.Pending.Invariant.{IsValid}
use mini_rpc.Client.{
  Options, Client, Around, ready, Mode, give_up, write_failure, close_or_stay, after_write,
}

-- With nobody else at work, and where the join of `Close` returns, the caller gets the failure of the
-- write as the call's result. (Its slot is fresh, and the table is in shape.)
pub failed_write_result :
    (mode : Mode) (o : Options) (id : String) (a : Around) (write_error : String) (c : Client)
    (joining : List Op)
    → IsValid c.slots
    → lookup id c.slots ≡ some fresh_slot
    → a.after_send ≡ []
    → a.before_pop ≡ []
    → a.joining ≡ some joining
    → (after_write mode o id a (err write_error) c).0 ≡ ready (write_failure write_error)
unfolding after_write give_up run close_or_stay
failed_write_result mode o id a write_error c joining v e none_after none_before back =
    let result : RpcCallResult = write_failure write_error in
    simp (none_after, none_before, back)
      (rw (try_pop-complete id result c.slots v e refl refl) refl)
