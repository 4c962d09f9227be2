-- ===== src/EventLoop/Laws.antt =====
-- What the dispatcher is told, and when.
use mini_rpc.Prelude.{ℕ, ◌≡◌, ◌≢◌, ◌↔◌, some, Bool, true, arith, ◌==◌, if◌then◌else◌}
use mini_rpc.EventLoop.{
  wait_result, EventLoop, new_loop, Creation, init, set_read_fd, event, wait_once, readable, wakeup,
}

-- Ready for `WaitOnce`.
pub record IsWatching (fd : ℕ) (l : EventLoop) : Type 0 where
  pub has_epoll : l.epoll_fd ≡ true
  pub has_wake_fd : l.wake_fd ≡ true
  pub watches : l.read_fd ≡ some fd

init-IsWatching :
    (o : Creation) (fd : ℕ) (added : Bool)
    → (init o new_loop).0 ≡ true
    → (set_read_fd fd added (init o new_loop).1).0 ≡ true
    → IsWatching fd (set_read_fd fd added (init o new_loop).1).1
unfolding init set_read_fd
init-IsWatching o fd added h k = ground arith

wait_once-event :
    (fd token : ℕ) (l : EventLoop)
    → IsWatching fd l
    → (wait_once (event token) l).0 ≡ (if token == 1 then wakeup else readable)
unfolding wait_once wait_result
wait_once-event fd token l w = ground (arith, w.has_epoll, w.watches)

-- Once `Init` and `SetReadFd` have succeeded, an event of the socket is reported as readable exactly
-- if the socket's descriptor is not 1; the descriptor 1 is the wake token, and then the event is
-- taken for a wakeup.
pub readable_unless_one :
    (o : Creation) (fd : ℕ) (added : Bool)
    → (init o new_loop).0 ≡ true
    → (set_read_fd fd added (init o new_loop).1).0 ≡ true
    → let l = (set_read_fd fd added (init o new_loop).1).1 in
      ((wait_once (event fd) l).0 ≡ readable ↔ (fd ≢ 1))
      × ((wait_once (event fd) l).0 ≡ wakeup ↔ (fd ≡ 1))
readable_unless_one o fd added h k =
    let w = init-IsWatching o fd added h k in
    let e = wait_once-event fd fd (set_read_fd fd added (init o new_loop).1).1 w in
    ground (arith, e)
