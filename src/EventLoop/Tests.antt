-- ===== src/EventLoop/Tests.antt =====
-- An event loop on the socket 7.
use mini_rpc.Prelude.{◌≡◌, refl, some, true}
use mini_rpc.EventLoop.{
  EventLoop, new_loop, Creation, init, set_read_fd, event, wait_once, wake_up, wakeup,
}

abbrev all_made : Creation
all_made = record { epoll_created = true; eventfd_created = true; wake_fd_added = true }

abbrev on_seven : EventLoop
on_seven = record { epoll_fd = true; wake_fd = true; read_fd = some 7; counter = 0 }

set_up : set_read_fd 7 true (init all_made new_loop).1 ≡ (true, on_seven)
unfolding set_read_fd init
set_up = refl

wakes : wait_once (event 1) (wake_up (wake_up on_seven)) ≡ (wakeup, on_seven)
unfolding wait_once wake_up
wakes = refl
