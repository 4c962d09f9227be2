-- ===== src/Worker/Settled.antt =====
-- No `Get()` of `CloseConnection` waits without end: every coroutine that is suspended is registered
-- where it waits, so that closing its connection resumes it.
use mini_rpc.Prelude.{
  ℕ, ◌==◌, ◌≡◌, refl, inl, inr, String, Option, none, some, Bool, true, false, List, [], ◌∷◌,
  is_some, if◌then◌else◌, Bool-cases, arith,
}
use mini_rpc.Io.{Outcome, ok, err, waiting, Protobuf}
use mini_rpc.Proto.{RpcRequest, RpcResponse}
use mini_rpc.Registry.{Registry}
use mini_rpc.Connection.{Connection, DispatchRequest, Options, notify_readable}
use mini_rpc.Connection.Sending.{enqueue_response}
use mini_rpc.Session.{Turn, Session, Event, readable, writable, ticks, closes, act}
use mini_rpc.Session.Wakeups.{IsParked}
use mini_rpc.Session.Events.{handle-IsParked}
use mini_rpc.Session.Resumed.{closed-resumed, start-IsParked, enqueued-IsParked}
use mini_rpc.Worker.{
  CompletedResponse, ConnectionState, Worker, lookup_fd, update_fd, erase_fd, count_completed,
  response_of, add_connection, close_found, close_connection, after_enqueue, deliver_to, deliver,
  drain_completed,
}
use mini_rpc.Worker.Poll.{
  Ready, coroutine_ok, drain_pending, tick_all, event_if, notify_ready, poll_found, poll_ready,
  poll_once,
}

abbrev pub AllParked : List (ℕ × ConnectionState) → Type 0
AllParked [] = Unit {0}
AllParked ((fd, s) ∷ m) = IsParked s.session × AllParked m

pub record IsSettled (w : Worker) : Type 0 where
  pub parked : AllParked w.connections
  pub free : w.stuck ≡ false

-- A connection that was found.
abbrev FoundParked : Option ConnectionState → Type 0
FoundParked none = Unit
FoundParked (some s) = IsParked s.session

choose-FoundParked :
    (b : Bool) (s : ConnectionState) (x : Option ConnectionState)
    → IsParked s.session
    → FoundParked x
    → FoundParked (if b then some s else x)
choose-FoundParked true s x h k = h
choose-FoundParked false s x h k = k

lookup-FoundParked :
    (fd : ℕ) (m : List (ℕ × ConnectionState)) → AllParked m → FoundParked (lookup_fd fd m)
lookup-FoundParked fd [] a = tt
lookup-FoundParked fd ((k, s) ∷ m) a =
    choose-FoundParked (k == fd) s (lookup_fd fd m) a.0 (lookup-FoundParked fd m a.1)

choose-AllParked :
    (b : Bool) (m m' : List (ℕ × ConnectionState))
    → AllParked m
    → AllParked m'
    → AllParked (if b then m else m')
choose-AllParked true m m' h k = h
choose-AllParked false m m' h k = k

update-AllParked :
    (fd : ℕ) (s : ConnectionState) (m : List (ℕ × ConnectionState))
    → IsParked s.session
    → AllParked m
    → AllParked (update_fd fd s m)
update-AllParked fd s [] h a = tt
update-AllParked fd s ((k, r) ∷ m) h a =
    choose-AllParked (k == fd) ((k, s) ∷ m) ((k, r) ∷ update_fd fd s m) (h, a.1)
      (a.0, update-AllParked fd s m h a.1)

erase-AllParked :
    (fd : ℕ) (m : List (ℕ × ConnectionState)) → AllParked m → AllParked (erase_fd fd m)
erase-AllParked fd [] a = tt
erase-AllParked fd ((k, r) ∷ m) a =
    choose-AllParked (k == fd) m ((k, r) ∷ erase_fd fd m) a.1 (a.0, erase-AllParked fd m a.1)

choose-IsSettled :
    (b : Bool) (w w' : Worker) → IsSettled w → IsSettled w' → IsSettled (if b then w else w')
choose-IsSettled true w w' h k = h
choose-IsSettled false w w' h k = k

module _ (requests : Protobuf RpcRequest) (responses : Protobuf RpcResponse)
    (registry : Registry) where
  close_found-IsSettled :
      (t : Turn) (fd : ℕ) (o : Option ConnectionState) (w : Worker)
      → FoundParked o
      → IsSettled w
      → IsSettled (close_found requests responses registry t fd o w).1
  unfolding close_found
  close_found-IsSettled t fd none w v h = h
  close_found-IsSettled t fd (some s) w v h = record {
    parked = erase-AllParked fd w.connections h.parked;
    free = rw (h.free, closed-resumed requests responses registry t s.session v) refl;
  }

  pub close-IsSettled :
      (t : Turn) (fd : ℕ) (w : Worker)
      → IsSettled w
      → IsSettled (close_connection requests responses registry t fd w).1
  unfolding close_connection
  close-IsSettled t fd w h =
      close_found-IsSettled t fd (lookup_fd fd w.connections) w
        (lookup-FoundParked fd w.connections h.parked) h

  written-IsSettled :
      (fd : ℕ) (s : ConnectionState) (w : Worker)
      → IsParked s.session
      → IsSettled w
      → IsSettled (record w { connections = update_fd fd s w.connections })
  written-IsSettled fd s w v h = record {
    parked = update-AllParked fd s w.connections v h.parked;
    free = h.free;
  }

  -- What follows `EnqueueResponse` leaves the coroutine registered, or closes the connection.
  after_enqueue-IsSettled :
      (t : Turn) (c : CompletedResponse) (s : ConnectionState) (w : Worker)
      → IsParked s.session
      → IsSettled w
      → IsSettled (
          after_enqueue requests responses registry t c s
            (enqueue_response responses t.now (response_of c) s.session.conn)
            w)
  unfolding after_enqueue
  after_enqueue-IsSettled t c s w v h =
      go (enqueue_response responses t.now (response_of c) s.session.conn)
        (enqueued-IsParked requests responses registry t (response_of c) s.session v)
    where
      go :
          (q : Outcome (Unit {0}) × Connection)
          → IsParked (
              act requests responses registry notify_readable t
                (record { conn = q.1; phase = s.session.phase }))
          → IsSettled (after_enqueue requests responses registry t c s q w)
      go (ok u, conn) k = written-IsSettled c.fd _ w k h
      go (err e, conn) k = close-IsSettled t c.fd w h
      go (waiting, conn) k = h

  deliver_to-IsSettled :
      (t : Turn) (c : CompletedResponse) (o : Option ConnectionState) (w : Worker)
      → FoundParked o
      → IsSettled w
      → IsSettled (deliver_to requests responses registry t c o w)
  unfolding deliver_to
  deliver_to-IsSettled t c none w v h = h
  deliver_to-IsSettled t c (some s) w v h =
      choose-IsSettled (s.connection_token == c.connection_token) _ w
        (after_enqueue-IsSettled t c s w v h) h

  pub drain_completed-IsSettled :
      (t : Turn) (cs : List CompletedResponse) (w : Worker)
      → IsSettled w
      → IsSettled (drain_completed requests responses registry t cs w)
  unfolding drain_completed deliver
  drain_completed-IsSettled t [] w h = h
  drain_completed-IsSettled t (c ∷ cs) w h =
      drain_completed-IsSettled t cs (deliver requests responses registry t c w) (
        deliver_to-IsSettled t c (lookup_fd c.fd w.connections) (count_completed w)
          (lookup-FoundParked c.fd w.connections h.parked)
          (record { parked = h.parked; free = h.free }))

  add_connection-IsSettled :
      (options : Options) (dispatcher : Option (ℕ → DispatchRequest → Option String)) (t : Turn)
      (fd : ℕ) (w : Worker)
      → IsSettled w
      → IsSettled (add_connection requests responses registry options dispatcher t fd w).1
  unfolding add_connection
  add_connection-IsSettled options dispatcher t fd w h =
      elim (Bool-cases (is_some (lookup_fd fd w.connections))) [
        | inl there ↦ simp (there) (record { parked = h.parked; free = h.free })
        | inr free ↦ simp (free) (record {
          parked = (start-IsParked requests responses registry t _ refl refl, h.parked);
          free = h.free;
        })
      ]

  pub drain_pending-IsSettled :
      (options : Options) (dispatcher : Option (ℕ → DispatchRequest → Option String)) (t : Turn)
      (fds : List ℕ) (w : Worker)
      → IsSettled w
      → IsSettled (drain_pending requests responses registry options dispatcher t fds w).1
  unfolding drain_pending
  drain_pending-IsSettled options dispatcher t [] w h = h
  drain_pending-IsSettled options dispatcher t (fd ∷ fds) w h =
      let (added, w') = add_connection requests responses registry options dispatcher t fd w in
      let h' = add_connection-IsSettled options dispatcher t fd w h in
      let k = drain_pending-IsSettled options dispatcher t fds w' h' in ground (arith, h', k)

  tick_all-AllParked :
      (t : Turn) (m : List (ℕ × ConnectionState))
      → AllParked m
      → AllParked (tick_all requests responses registry t m)
  unfolding tick_all
  tick_all-AllParked t [] a = tt
  tick_all-AllParked t ((fd, s) ∷ m) a = (
    handle-IsParked requests responses registry (ticks t) s.session a.0,
    tick_all-AllParked t m a.1,
  )

  event_if-IsParked :
      (b : Bool) (e : Event) (s : Session)
      → IsParked s
      → IsParked (event_if requests responses registry b e s)
  unfolding event_if
  event_if-IsParked true e s v = handle-IsParked requests responses registry e s v
  event_if-IsParked false e s v = v

  poll_found-IsSettled :
      (r : Ready) (o : Option ConnectionState) (w : Worker)
      → FoundParked o
      → IsSettled w
      → IsSettled (poll_found requests responses registry r o w)
  unfolding poll_found notify_ready
  poll_found-IsSettled r none w v h = h
  poll_found-IsSettled r (some s) w v h =
      let session = notify_ready requests responses registry r s.session in
      let v' : IsParked session = event_if-IsParked r.hangup (closes r.turn) _ (
        event_if-IsParked r.epollout (writable r.turn) _
          (event_if-IsParked r.epollin (readable r.turn) s.session v)) in
      let h' = written-IsSettled r.fd (record s { session = session }) w v' h in
      let closed = close-IsSettled r.turn r.fd _ h' in
      choose-IsSettled (coroutine_ok session.phase) _ _
        (choose-IsSettled session.conn.should_close _ _ closed h') closed

  poll_ready-IsSettled :
      (rs : List Ready) (w : Worker)
      → IsSettled w
      → IsSettled (poll_ready requests responses registry rs w)
  unfolding poll_ready
  poll_ready-IsSettled [] w h = h
  poll_ready-IsSettled (r ∷ rs) w h = poll_ready-IsSettled rs _ (
      poll_found-IsSettled r (lookup_fd r.fd w.connections) w
        (lookup-FoundParked r.fd w.connections h.parked) h)

  ticked-IsSettled :
      (t : Turn) (ready : List Ready) (w : Worker)
      → IsSettled w
      → IsSettled (
          poll_ready requests responses registry ready
            (record w { connections = tick_all requests responses registry t w.connections }))
  ticked-IsSettled t ready w h =
      poll_ready-IsSettled ready _
        (record { parked = tick_all-AllParked t w.connections h.parked; free = h.free })

  pub poll_once-IsSettled :
      (options : Options) (dispatcher : Option (ℕ → DispatchRequest → Option String)) (t : Turn)
      (queues : Option (List ℕ × List CompletedResponse)) (ready : List Ready) (w : Worker)
      → IsSettled w
      → IsSettled (poll_once requests responses registry options dispatcher t queues ready w).1
  unfolding poll_once
  poll_once-IsSettled options dispatcher t none ready w h = ticked-IsSettled t ready w h
  poll_once-IsSettled options dispatcher t (some (pending, completed)) ready w h =
      let h' = drain_pending-IsSettled options dispatcher t pending w h in
      let k = ticked-IsSettled t ready _ (drain_completed-IsSettled t completed _ h') in
      ground (arith, h', k)
