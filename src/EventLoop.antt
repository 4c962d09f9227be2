-- ===== src/EventLoop.antt =====
-- client/event_loop.h and client/event_loop.cpp: the epoll instance on which the client's dispatcher
-- waits, for its socket and for an eventfd by which other threads wake it.
pub mod Laws
mod Tests
use mini_rpc.Prelude.{
  ℕ, suc, ◌-◌, ◌^◌, Option, none, some, Bool, true, false, not, ◌||◌, ◌==◌, is_some, min,
  if◌then◌else◌,
}
use mini_rpc.Io.{Errno, eintr, eagain, other}

-- Whether a descriptor is held; `read_fd` is -1 while it is `none`; `counter` is the eventfd's.
pub record EventLoop : Type 0 where
  pub epoll_fd : Bool
  pub wake_fd : Bool
  pub read_fd : Option ℕ
  pub counter : ℕ

pub data WaitResult : Type 0 where
  readable timeout wakeup error : WaitResult

abbrev pub wake_token : ℕ
wake_token = 1

-- `EventLoop::EventLoop`
abbrev pub new_loop : EventLoop
new_loop = record { epoll_fd = false; wake_fd = false; read_fd = none; counter = 0 }

-- Which of the calls in `Init` succeed.
pub record Creation : Type 0 where
  pub epoll_created : Bool
  pub eventfd_created : Bool
  pub wake_fd_added : Bool

pub init : Creation → EventLoop → Bool × EventLoop
init o l =
    if not o.epoll_created
    then (false, record l { epoll_fd = false })
    else if not o.eventfd_created
    then (false, record l { epoll_fd = true; wake_fd = false })
    else if not o.wake_fd_added
    then (false, record l { epoll_fd = true; wake_fd = true; counter = 0 })
    else (true, record l { epoll_fd = true; wake_fd = true; counter = 0 })

-- `added`: whether `epoll_ctl` succeeds.
pub set_read_fd : ℕ → Bool → EventLoop → Bool × EventLoop
set_read_fd fd added l =
    if not l.epoll_fd
    then (false, l)
    else if not added
    then (false, l)
    else (true, record l { read_fd = some fd })

-- What `epoll_wait` returns: 0, -1, or an event with its `data.u64`. The event of the socket carries
-- its descriptor there: the union is cleared before `data.fd` is set.
pub data EpollWait : Type 0 where
  elapsed : EpollWait
  broken : Errno → EpollWait
  event : ℕ → EpollWait

pub wait_result : EpollWait → WaitResult
wait_result elapsed = timeout
wait_result (broken eintr) = timeout
wait_result (broken eagain) = error
wait_result (broken (other s)) = error
wait_result (event token) = if token == wake_token then wakeup else readable

abbrev pub after_wait : WaitResult → EventLoop → EventLoop
after_wait wakeup l = record l { counter = 0 }
after_wait other_result l = l

unfoldable pub wait_once : EpollWait → EventLoop → WaitResult × EventLoop
unfolding wait_result
wait_once o l =
    if not l.epoll_fd || not (is_some l.read_fd)
    then (error, l)
    else (wait_result o, after_wait (wait_result o) l)

-- A write to a full eventfd that does not block fails, and its error is ignored.
pub wake_up : EventLoop → EventLoop
wake_up l = if not l.wake_fd then l else record l { counter = min (suc l.counter) (2 ^ 64 - 2) }
