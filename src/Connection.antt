-- ===== src/Connection.antt =====
-- `Connection` of server/connection.h and server/connection.cpp: the state of one connection of the
-- server, and how events move it. Its methods run on its owner thread; a method that resumes a
-- coroutine returns the handles in order, and the coroutine's own run is a later step.
pub mod Sending
pub mod Receiving
mod Tests
use mini_rpc.Prelude.{
  ℕ, ◌+◌, String, Option, none, some, Bool, true, false, ◌&&◌, ◌||◌, not, List, [], ◌∷◌, ◌++◌, leb,
  is_some, if◌then◌else◌,
}
use text.Mathlib.Text.{◌==◌ as str_eq}
use mini_rpc.Io.{Bytes}
use mini_rpc.Buffer.{Buffer, make}

-- `Connection::State`
pub data State : Type 0 where
  opened reading writing closing closed error : State

-- `Connection::Options`, in the unit of the clock.
pub record Options : Type 0 where
  pub read_timeout : ℕ
  pub write_timeout : ℕ
  pub max_write_buffer_bytes : ℕ

pub record DispatchRequest : Type 0 where
  pub sequence : ℕ
  pub request_id : String
  pub service_name : String
  pub method_name : String
  pub payload : Bytes

pub record PendingChunk : Type 0 where
  pub bytes : Bytes
  pub offset : ℕ

-- The members of the class but for the file descriptor and the registry, which are arguments.
-- A dispatcher answers `none` for `true`, and `some` text for `false` with that `*error_msg`.
-- `dispatched` records what was handed to it, newest last.
pub record Connection : Type 0 where
  pub options : Options
  pub read_buffer : Buffer
  pub write_buffer : List PendingChunk
  pub pending_write_bytes : ℕ
  pub last_error : String
  pub state : State
  pub should_close : Bool
  pub read_ready : Bool
  pub write_ready : Bool
  pub read_deadline : Option ℕ
  pub write_deadline : Option ℕ
  pub read_waiter : Option ℕ
  pub write_waiter : Option ℕ
  pub request_dispatcher : Option (DispatchRequest → Option String)
  pub next_request_sequence : ℕ
  pub dispatched : List DispatchRequest
  pub owner_worker_id : Option ℕ

abbrev pub make_connection : Options → Connection
make_connection options = record {
  options = options;
  read_buffer = make 8192;
  write_buffer = [];
  pending_write_bytes = 0;
  last_error = "";
  state = opened;
  should_close = false;
  read_ready = false;
  write_ready = false;
  read_deadline = none;
  write_deadline = none;
  read_waiter = none;
  write_waiter = none;
  request_dispatcher = none;
  next_request_sequence = 0;
  dispatched = [];
  owner_worker_id = none;
}

abbrev pub is_empty : List PendingChunk → Bool
is_empty [] = true
is_empty (c ∷ cs) = false

abbrev pub has_pending_write : Connection → Bool
has_pending_write c = not (is_empty c.write_buffer)

abbrev pub bind_to_worker_loop : ℕ → Connection → Connection
bind_to_worker_loop worker_id c = record c { owner_worker_id = some worker_id }

abbrev pub set_request_dispatcher :
    Option (DispatchRequest → Option String) → Connection → Connection
set_request_dispatcher dispatcher c = record c { request_dispatcher = dispatcher }

abbrev pub arm_read_deadline : ℕ → Connection → Connection
arm_read_deadline now c = record c { read_deadline = some (now + c.options.read_timeout) }

abbrev pub arm_write_deadline : ℕ → Connection → Connection
arm_write_deadline now c = record c { write_deadline = some (now + c.options.write_timeout) }

abbrev pub clear_read_deadline : Connection → Connection
clear_read_deadline c = record c { read_deadline = none }

abbrev pub clear_write_deadline : Connection → Connection
clear_write_deadline c = record c { write_deadline = none }

abbrev pub handles : Option ℕ → List ℕ
handles none = []
handles (some h) = h ∷ []

-- `ResumeWaiter`, on each of the two waiters.
abbrev pub resume_read_waiter : Connection → Connection × List ℕ
resume_read_waiter c = (record c { read_waiter = none }, handles c.read_waiter)

abbrev pub resume_write_waiter : Connection → Connection × List ℕ
resume_write_waiter c = (record c { write_waiter = none }, handles c.write_waiter)

abbrev pub resume_both : Connection → Connection × List ℕ
resume_both c =
    let (c', r) = resume_read_waiter c in let (c'', w) = resume_write_waiter c' in (c'', r ++ w)

abbrev pub is_closed : State → Bool
is_closed closed = true
is_closed _ = false

abbrev pub is_failed : State → Bool
is_failed error = true
is_failed _ = false

unfoldable pub mark_closing : Connection → Connection × List ℕ
mark_closing c =
    let c' =
      if not (is_closed c.state) && not (is_failed c.state)
      then record c { state = closing }
      else c in
    resume_both (clear_write_deadline (clear_read_deadline (record c' { should_close = true })))

pub mark_closed : Connection → Connection
mark_closed c = record c {
  should_close = true;
  state = closed;
  read_ready = false;
  write_ready = false;
  read_deadline = none;
  write_deadline = none;
  read_waiter = none;
  write_waiter = none;
}

unfoldable pub enter_error : String → Connection → Connection × List ℕ
enter_error message c =
    let c' = if str_eq message "" then c else record c { last_error = message } in
    resume_both (
      clear_write_deadline (clear_read_deadline (record c' { should_close = true; state = error })))

-- `deadline.has_value() && now >= *deadline`
abbrev pub has_passed : Option ℕ → ℕ → Bool
has_passed none now = false
has_passed (some d) now = leb d now

unfoldable pub tick : ℕ → Connection → Connection × List ℕ
unfolding enter_error
tick now c =
    if is_closed c.state || (is_failed c.state || c.should_close)
    then (c, [])
    else if has_passed c.read_deadline now
    then enter_error "read timeout" c
    else if has_passed c.write_deadline now
    then enter_error "write timeout" c
    else (c, [])

unfoldable pub notify_readable : Connection → Connection × List ℕ
notify_readable c = resume_read_waiter (record c { read_ready = true; state = reading })

unfoldable pub notify_writable : Connection → Connection × List ℕ
notify_writable c = resume_write_waiter (record c { write_ready = true; state = writing })

-- `ReadableAwaiter`: whether the coroutine goes on at once, is suspended, and what resuming does.
unfoldable pub read_await_ready : Connection → Bool
read_await_ready c = c.should_close || c.read_ready

unfoldable pub read_await_suspend : ℕ → ℕ → Connection → Bool × Connection
read_await_suspend now handle c =
    if c.should_close || c.read_ready
    then (false, c)
    else (true, arm_read_deadline now (record c { read_waiter = some handle; state = reading }))

unfoldable pub read_await_resume : Connection → Connection
read_await_resume c = record c { read_ready = false }

-- `WritableAwaiter`
unfoldable pub write_await_ready : Connection → Bool
write_await_ready c = c.should_close || c.write_ready

unfoldable pub write_await_suspend : ℕ → ℕ → Connection → Bool × Connection
write_await_suspend now handle c =
    if c.should_close || c.write_ready
    then (false, c)
    else (true, arm_write_deadline now (record c { write_waiter = some handle; state = writing }))

unfoldable pub write_await_resume : Connection → Connection
write_await_resume c = record c { write_ready = false }
