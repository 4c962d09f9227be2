-- ===== src/Worker/Stopping.antt =====
-- `EnqueueConnection`, `RequestStop`, `Run` and `CloseAllConnections` of server/worker_loop.cpp: what
-- other threads hand to a worker, and its thread from the first round to the last.
use mini_rpc.Prelude.{
  ℕ, suc, String, Option, none, some, Bool, true, false, not, is_some, List, [], ◌∷◌, ◌++◌, map,
  if◌then◌else◌,
}
use mini_rpc.Io.{Protobuf}
use mini_rpc.Proto.{RpcRequest, RpcResponse}
use mini_rpc.Registry.{Registry}
use mini_rpc.Connection.{DispatchRequest, Options}
use mini_rpc.Session.{Turn}
use mini_rpc.Worker.{CompletedResponse, Worker, close_connection, drain_completed}
use mini_rpc.Worker.Poll.{Ready, drain_pending, poll_once}

-- What the acceptor's thread shares with the worker's: the queue of descriptors, the two flags, and
-- how often the eventfd was written. `handing` is the descriptor with which the acceptor's thread is
-- inside `EnqueueConnection`, past its tests and before its push.
pub record Loop : Type 0 where
  pub worker : Worker
  pub pending : List ℕ
  pub accepting_new_connections : Bool
  pub stop_requested : Bool
  pub wakeups : ℕ
  pub handing : Option ℕ

-- The tests of `EnqueueConnection`, which take no lock: the error text, or none where the descriptor is
-- to be pushed. `none` is a `UniqueFd` without one, and `initialized` says whether the worker has its
-- epoll and its eventfd.
unfoldable pub test_connection : Bool → Option ℕ → Loop → Option String × Loop
test_connection initialized none l = (some "invalid client fd", l)
test_connection initialized (some fd) l =
    if not l.accepting_new_connections
    then (some "worker loop is stopping and no longer accepts new connections", l)
    else if not initialized
    then (some "worker loop not initialized", l)
    else (none, record l { handing = some fd })

-- The push under `pending_mutex_`, and the wakeup.
unfoldable pub push_connection : Loop → Loop
push_connection l = elim l.handing [
  | none ↦ l
  | some fd ↦ record l { pending = l.pending ++ (fd ∷ []); wakeups = suc l.wakeups; handing = none }
]

abbrev pub push_if_passed : Option String × Loop → Option String × Loop
push_if_passed (none, l) = (none, push_connection l)
push_if_passed (some error, l) = (some error, l)

-- `EnqueueConnection` where nothing comes between.
unfoldable pub enqueue_connection : Bool → Option ℕ → Loop → Option String × Loop
unfolding test_connection push_connection
enqueue_connection initialized fd l = push_if_passed (test_connection initialized fd l)

unfoldable pub request_stop : Loop → Loop
request_stop l = record l {
  accepting_new_connections = false;
  stop_requested = true;
  wakeups = suc l.wakeups;
}

-- What the other threads do. There is one acceptor, so that no test comes between another and its push.
pub data Post : Type 0 where
  tests : Option ℕ → Post
  pushes : Post
  stops : Post

unfoldable pub post : Post → Loop → Loop
unfolding test_connection push_connection request_stop
post (tests fd) l = if is_some l.handing then l else (test_connection true fd l).1
post pushes l = push_connection l
post stops l = request_stop l

unfoldable pub posts : List Post → Loop → Loop
unfolding post
posts [] l = l
posts (p ∷ ps) l = posts ps (post p l)

-- What `epoll_wait` gives: `EINTR`; an error, of it or of the eventfd; or events.
pub data Epoll : Type 0 where
  interrupted failed reports : Epoll

-- A round: what the others do before the loop reads `stop_requested_`, and after that before the queue
-- of descriptors is taken; what `epoll_wait` reports; and, where the eventfd is ready, what the queue
-- of responses holds.
pub record Round : Type 0 where
  pub before : List Post
  pub meanwhile : List Post
  pub epoll : Epoll
  pub turn : Turn
  pub woken : Option (List CompletedResponse)
  pub ready : List Ready

-- The end of the thread: what the others do until the last drain, and after it; whether `DrainWakeFd`
-- succeeds; and what the queue of responses holds.
pub record Ending : Type 0 where
  pub meanwhile : List Post
  pub drained : Bool
  pub afterwards : List Post
  pub turn : Turn
  pub completed : List CompletedResponse

-- The thread's function returns, unless a `Get()` waits without end.
unfoldable pub unless_stuck : Loop → Option Loop
unless_stuck l = if l.worker.stuck then none else some l

module _ (requests : Protobuf RpcRequest) (responses : Protobuf RpcResponse)
    (registry : Registry) where
  -- The loop of `CloseAllConnections`, over the sampled descriptors.
  unfoldable pub close_all : Turn → List ℕ → Worker → Worker
  close_all t [] w = w
  close_all t (fd ∷ fds) w = close_all t fds (close_connection requests responses registry t fd w).1

  unfoldable pub close_all_connections : Turn → Worker → Worker
  unfolding close_all
  close_all_connections t w = close_all t (map (λ c. c.0) w.connections) w

  module _ (options : Options) (dispatcher : Option (ℕ → DispatchRequest → Option String)) where
    -- `PollOnce` where `epoll_wait` reports events: with a wake-up it takes the whole queue of
    -- descriptors.
    unfoldable pub poll : Round → Loop → Bool × Loop
    poll r l = elim r.woken [
      | none ↦
          let (fine, w) =
            poll_once requests responses registry options dispatcher r.turn none r.ready l.worker in
          (fine, record l { worker = w })
      | some completed ↦
          let (fine, w) =
            poll_once requests responses registry options dispatcher r.turn
              (some (l.pending, completed)) r.ready l.worker in
          (fine, record l { worker = w; pending = []; wakeups = 0 })
    ]

    unfoldable pub round : Round → Loop → Bool × Loop
    unfolding poll
    round r l = elim r.epoll [ interrupted ↦ (true, l) | failed ↦ (false, l) | reports ↦ poll r l ]

    -- The two drains after the loop. A response is delivered whether or not each descriptor was
    -- added.
    unfoldable pub last_drain : Ending → Loop → Loop
    last_drain e l =
        let (fine, w) =
          drain_pending requests responses registry options dispatcher e.turn l.pending l.worker in
        if e.drained
        then record l {
          worker = drain_completed requests responses registry e.turn e.completed w;
          pending = [];
          wakeups = 0;
        }
        else l

    -- What `Run` does after its loop.
    unfoldable pub shut_down : Ending → Loop → Loop
    unfolding last_drain close_all_connections
    shut_down e l =
        let refusing : Loop = record l { accepting_new_connections = false } in
        let l' = posts e.afterwards (last_drain e (posts e.meanwhile refusing)) in
        record l' { worker = close_all_connections e.turn l'.worker }

    -- `Run`; none while it has not returned after these rounds.
    unfoldable pub run : List Round → Ending → Loop → Option Loop
    unfolding round shut_down unless_stuck
    run [] e l = none
    run (r ∷ rs) e l =
        let l' = posts r.before l in
        let (fine, l'') = round r (posts r.meanwhile l') in
        let rest = run rs e l'' in
        if l'.stop_requested
        then unless_stuck (shut_down e l')
        else if l''.worker.stuck
        then none
        else if fine
        then rest
        else unless_stuck (shut_down e l'')
