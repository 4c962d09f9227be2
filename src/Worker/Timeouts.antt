-- ===== src/Worker/Timeouts.antt =====
-- What becomes of a connection that times out while nothing happens on its socket.
use mini_rpc.Prelude.{
  ℕ, ◌==◌, ◌≡◌, ◌≢◌, ap, ◌||◌, inl, inr, String, Option, none, some, true, false, List, [], ◌∷◌,
  Bool-cases, some_inj,
}
use mini_rpc.Io.{Protobuf}
use mini_rpc.Proto.{RpcRequest, RpcResponse}
use mini_rpc.Registry.{Registry}
use mini_rpc.Connection.{DispatchRequest, Options, is_closed, is_failed, has_passed}
use mini_rpc.Session.{Turn, running, ticks, handle}
use mini_rpc.Session.Wakeups.{IsParked}
use mini_rpc.Session.Closing.{IsEnded, tick_late-IsEnded}
use mini_rpc.Worker.{ConnectionState, Worker, lookup_fd}
use mini_rpc.Worker.Poll.{tick_all, poll_ready, poll_once}

module _ (requests : Protobuf RpcRequest) (responses : Protobuf RpcResponse)
    (registry : Registry) where
  lookup-tick_all :
      (t : Turn) (fd : ℕ) (m : List (ℕ × ConnectionState)) (s : ConnectionState)
      → lookup_fd fd m ≡ some s
      → lookup_fd fd (tick_all requests responses registry t m)
        ≡ some (record s { session = handle requests responses registry (ticks t) s.session })
  unfolding tick_all
  lookup-tick_all t fd [] s e = absurd cc
  lookup-tick_all t fd ((k, r) ∷ m) s e = elim (Bool-cases (k == fd)) [
    | inl here ↦
        let same : r ≡ s = some_inj (rw here at e) in
        let ticked : ConnectionState → ConnectionState =
          λ x. record x { session = handle requests responses registry (ticks t) x.session } in
        rw here (ap (λ x. some (ticked x)) same)
    | inr later ↦ rw later (lookup-tick_all t fd m s (rw later at e))
  ]

  -- In a round without ready events and without a wake-up, a connection that is waiting and one of
  -- whose deadlines has passed stays in the table, although its coroutine has ended.
  pub poll_once-late :
      (options : Options) (dispatcher : Option (ℕ → DispatchRequest → Option String)) (t : Turn)
      (fd : ℕ) (w : Worker) (s : ConnectionState)
      → lookup_fd fd w.connections ≡ some s
      → IsParked s.session
      → s.session.phase ≢ running
      → (is_closed s.session.conn.state
          || (is_failed s.session.conn.state || s.session.conn.should_close))
        ≡ false
      → (has_passed s.session.conn.read_deadline t.now
          || has_passed s.session.conn.write_deadline t.now)
        ≡ true
      → let (fine, w') = poll_once requests responses registry options dispatcher t none [] w in
        (s' : ConnectionState) × ((lookup_fd fd w'.connections ≡ some s') × IsEnded s'.session)
  unfolding poll_once poll_ready
  poll_once-late options dispatcher t fd w s e v n live late = (
    record s { session = handle requests responses registry (ticks t) s.session },
    (
      lookup-tick_all t fd w.connections s e,
      tick_late-IsEnded requests responses registry t s.session v n live late,
    ),
  )
