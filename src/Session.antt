-- ===== src/Session.antt =====
-- The coroutine of one connection: `HandleConnectionCo` of server/worker_loop.cpp with `ReadRequestCo`
-- and `WriteResponseCo` of server/connection.cpp, and the events with which the worker moves it.
-- A coroutine that is resumed runs at once, on the worker's thread, until it waits again or ends.
pub mod Steady
pub mod Wakeups
pub mod Events
pub mod Closing
pub mod Resumed
pub mod Io
pub mod Fuel
mod Tests
use text.Mathlib.Text.{◌==◌ as str_eq}
use mini_rpc.Prelude.{
  ℕ, zero, suc, String, Option, none, some, Bool, true, false, not, List, [], ◌∷◌, if◌then◌else◌,
}
use mini_rpc.Io.{Recv, Send, Outcome, ok, err, waiting, Protobuf}
use mini_rpc.Proto.{RpcRequest, RpcResponse}
use mini_rpc.Registry.{Registry}
use mini_rpc.Connection.{
  Connection, has_pending_write, clear_read_deadline, clear_write_deadline, read_await_ready,
  read_await_suspend, read_await_resume, write_await_ready, write_await_suspend, write_await_resume,
  notify_readable, notify_writable, tick, mark_closing,
}
use mini_rpc.Connection.Sending.{on_writable}
use mini_rpc.Connection.Receiving.{on_readable}

-- Where the coroutine is: suspended in one of the awaiters, ended (with `coroutine_error` where
-- `coroutine_ok` is false), or not there yet.
pub data Phase : Type 0 where
  at_read at_write running : Phase
  ended : Option String → Phase

-- Whether somebody has to resume the coroutine, so that `Get()` waits. (`running` is where the model
-- has no more results of the socket for it.)
abbrev pub is_suspended : Phase → Bool
is_suspended at_read = true
is_suspended at_write = true
is_suspended running = false
is_suspended (ended e) = false

-- The places in the coroutine between which it runs: the head of the loop, behind the wait in
-- `ReadRequestCo`, the head of the inner loop, and behind the wait in `WriteResponseCo`.
pub data Point : Type 0 where
  top after_read_wait writes after_write_wait : Point

-- What one run of the coroutine sees: the time, and the results of the socket's calls.
pub record Turn : Type 0 where
  pub now : ℕ
  pub recvs : List Recv
  pub sends : List Send

pub record Session : Type 0 where
  pub conn : Connection
  pub phase : Phase

-- `coroutine_error`, filled from `LastError()` where it is empty.
abbrev pub error_text : String → Connection → String
error_text e c = if str_eq e "" then c.last_error else e

-- The two `co_await`s: the coroutine goes on at once, or is suspended.
pub await_read : ℕ → Connection → Option Session
unfolding read_await_ready read_await_suspend
await_read now c =
    if read_await_ready c
    then none
    else let (suspended, c') = read_await_suspend now 0 c in
      if suspended then some (record { conn = c'; phase = at_read }) else none

pub await_write : ℕ → Connection → Option Session
unfolding write_await_ready write_await_suspend
await_write now c =
    if write_await_ready c
    then none
    else let (suspended, c') = write_await_suspend now 0 c in
      if suspended then some (record { conn = c'; phase = at_write }) else none

-- Whether a run goes on at another point.
pub data Next : Type 0 where
  stops : Session → Next
  goes_on : Point → Connection → Next

abbrev pub end_with : Option String → Connection → Next
end_with e c = stops (record { conn = c; phase = ended e })

abbrev pub wait_or : Point → Connection → Option Session → Next
wait_or point c none = goes_on point c
wait_or point c (some s) = stops s

-- What follows `ReadRequestCo` and `WriteResponseCo`: the error exit, the check of `ShouldClose`, or
-- the inner loop.
pub after_io : Outcome (Unit {0}) × Connection × List ℕ → Next
after_io (ok u, c, woken) = if c.should_close then end_with none c else goes_on writes c
after_io (err e, c, woken) = end_with (some (error_text e c)) c
after_io (waiting, c, woken) = stops (record { conn = c; phase = running })

-- The events of `PollOnce`, and the first steps of `CloseConnection`.
pub data Event : Type 0 where
  readable : Turn → Event
  writable : Turn → Event
  ticks : Turn → Event
  closes : Turn → Event

-- Between two waits the coroutine passes at most nine points.
abbrev pub run_fuel : ℕ
run_fuel = 9

module _ (requests : Protobuf RpcRequest) (responses : Protobuf RpcResponse)
    (registry : Registry) where
  -- From one point to the next. A coroutine that runs has no waiter registered, so that `EnterError`
  -- resumes nobody here.
  pub move : Turn → Point → Connection → Next
  unfolding after_io await_read await_write read_await_resume write_await_resume
  move t top c =
      if c.should_close then end_with none c else wait_or after_read_wait c (await_read t.now c)
  move t after_read_wait c =
      let c' = clear_read_deadline (read_await_resume c) in
      if c'.should_close
      then end_with none c'
      else after_io (on_readable requests responses registry t.now t.recvs c')
  move t writes c =
      if not (has_pending_write c)
      then goes_on top c
      else wait_or after_write_wait c (await_write t.now c)
  move t after_write_wait c =
      let c' = clear_write_deadline (write_await_resume c) in
      if c'.should_close then end_with none c' else after_io (on_writable t.now t.sends c')

  pub run : ℕ → Turn → Point → Connection → Session
  unfolding move
  run zero t point c = record { conn = c; phase = running }
  run (suc fuel) t point c = elim (move t point c) [
    | stops s ↦ s
    | goes_on point' c' ↦ run fuel t point' c'
  ]

  pub start : Turn → Connection → Session
  unfolding run
  start t c = run run_fuel t top c

  -- `handle.resume()`
  pub resume : Turn → Session → Session
  unfolding run
  resume t s = elim s.phase [
    | at_read ↦ run run_fuel t after_read_wait s.conn
    | at_write ↦ run run_fuel t after_write_wait s.conn
    | running ↦ s
    | ended e ↦ s
  ]

  pub resume_all : Turn → List ℕ → Session → Session
  unfolding resume
  resume_all t [] s = s
  resume_all t (h ∷ hs) s = resume_all t hs (resume t s)

  -- A method of the connection, and the coroutines that it resumes.
  pub act : (Connection → Connection × List ℕ) → Turn → Session → Session
  unfolding resume_all
  act f t s =
      let (c, handles) = f s.conn in resume_all t handles (record { conn = c; phase = s.phase })

  pub handle : Event → Session → Session
  unfolding act
  handle (readable t) s = act notify_readable t s
  handle (writable t) s = act notify_writable t s
  handle (ticks t) s = act (tick t.now) t s
  handle (closes t) s = act notify_writable t (act notify_readable t (act mark_closing t s))
