-- ===== src/Client/Tests.antt =====
-- A call on a fresh client, and the theorems at concrete inputs.
use mini_rpc.Client.Samples.{sends_and_waits, options, payloads, quiet}
use mini_rpc.Codec.{htonl, write_n}
use mini_rpc.Prelude.{◌≡◌, refl, none, true, false, [], ◌∷◌, arith, lookup, starts_with}
use mini_rpc.Io.{ok, err, to_string}
use mini_rpc.Codec.{htonl, write_message, write_n}
use mini_rpc.RpcError.{RpcCallResult}
use mini_rpc.Pending.{Slots, completes, fresh_slot, add, bind_coroutine, run}
use mini_rpc.Pending.Invariant.{IsValid}
use mini_rpc.Client.{
  write_message, run, bind_coroutine, Client, new_client, Around, later, async, call_async, call_co,
  call, connect, next_request_id, send_and_bind, send_message, after_write, internal,
}
use mini_rpc.Client.Ids.{Numbered, next_request_id-fresh}
use mini_rpc.Client.Calls.{IsPromised, IsSuspended, call_async_tracked, call_co_tracked}
use mini_rpc.Client.Early.{IsAnswered, early_response}

suspends : (call_co payloads options quiet "Disk" "Read" (9 ∷ []) new_client).0 ≡ later
unfolding call_co call connect next_request_id send_and_bind send_message after_write add
    bind_coroutine run to_string new_client write_message write_n htonl
suspends = refl

-- The slot of the call "1", and a client that holds it.
abbrev one_call : Slots
one_call = ("1", fresh_slot) ∷ []

abbrev sent : Client
sent = record {
  sock = true;
  wire = [];
  next_id = 1;
  slots = one_call;
  dispatcher_running = true;
  dispatcher_thread = true;
}

abbrev gives : RpcCallResult
gives = internal "a result"

one_call-IsValid : IsValid one_call
one_call-IsValid = record {
  unique = (refl, tt);
  sound = (
    refl,
    record {
      one_mode = λ h. refl;
      handle_there = refl;
      promise_bound = λ h. cc;
      promise_there = λ h k. cc;
      no_promise = λ h. refl;
      no_handle = λ h. refl;
    },
    tt,
  );
}

call_async_tracked_example :
    IsPromised 5 2100
      (call_async payloads options quiet "Disk" "Read" (9 ∷ []) new_client).1.slots
      (call_async payloads options quiet "Disk" "Read" (9 ∷ []) new_client).2
call_async_tracked_example =
    call_async_tracked payloads options quiet "Disk" "Read" (9 ∷ []) new_client sends_and_waits

call_co_tracked_example :
    IsSuspended 5 2100 (call_co payloads options quiet "Disk" "Read" (9 ∷ []) new_client).1.slots
call_co_tracked_example =
    call_co_tracked payloads options quiet "Disk" "Read" (9 ∷ []) new_client suspends

one_call-Numbered : Numbered 1 one_call
unfolding to_string
one_call-Numbered = ((1, omega arith, omega arith, refl), tt)

next_request_id-fresh_example :
    let (id, c') = next_request_id sent in
    let (added, s) = add id c'.slots in
    (added ≡ true) × (c'.next_id ≡ 2) × Numbered c'.next_id s × (starts_with "hb_" id ≡ false)
next_request_id-fresh_example = next_request_id-fresh sent one_call-Numbered (omega arith)

abbrev hurried : Around
hurried = record quiet { after_send = completes "1" gives ∷ [] }

early_response_example :
    let (reply, c', es) = after_write async options "1" hurried (ok tt) sent in
    IsAnswered async 5 gives "1" reply es × (lookup "1" c'.slots ≡ none)
early_response_example =
    early_response async options "1" hurried gives sent one_call-IsValid refl refl

no_socket :
    (send_message payloads []
      (record { request_id = "1"; service_name = "Disk"; method_name = "Read"; payload = [] })
      new_client).0
    ≡ err ""
unfolding send_message new_client
no_socket = refl
