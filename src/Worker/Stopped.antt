-- ===== src/Worker/Stopped.antt =====
-- A worker that is asked to stop: its thread ends, and leaves no connection behind.
use mathlib.Core.Path.{subst}
use mini_rpc.Prelude.{
  sym, ℕ, String, ◌==◌, ==_iff, if◌then◌else◌, ◌≡◌, ◌⊎◌, refl, ap, ◌∙◌, inl, inr, Option, some,
  none, Bool, true, false, List, [], ◌∷◌, ◌++◌, arith, map, Bool-cases,
}
use mini_rpc.Io.{Protobuf}
use mini_rpc.Proto.{RpcRequest, RpcResponse}
use mini_rpc.Registry.{Registry}
use mini_rpc.Connection.{DispatchRequest, Options}
use mini_rpc.Session.{Turn}
use mini_rpc.Worker.{CompletedResponse, ConnectionState, Worker, close_connection, close_found}
use mini_rpc.Worker.Settled.{
  IsSettled, close-IsSettled, drain_completed-IsSettled, drain_pending-IsSettled,
  poll_once-IsSettled,
}
use mini_rpc.Worker.Posts.{posts-worker, IsLate, posts-IsLate, posts-refuses, stop_among}
use mini_rpc.Worker.Stopping.{
  Loop, Post, stops, posts, Epoll, interrupted, failed, reports, Round, Ending, close_all,
  close_all_connections, poll, round, last_drain, shut_down, unless_stuck, run,
}

-- What is left of a worker that has stopped.
pub record IsStopped (e : Ending) (l : Loop) : Type 0 where
  pub closed : l.worker.connections ≡ []
  pub refuses : l.accepting_new_connections ≡ false
  pub left : (e.drained ≡ false) ⊎ ((l.pending ≡ []) ⊎ ((fd : ℕ) × (l.pending ≡ fd ∷ [])))

-- `Run` has returned, and the worker has stopped.
abbrev pub Returns : Ending → Option Loop → Type 0
Returns e x = (l' : Loop) × ((x ≡ some l') × IsStopped e l')

-- The three tests of a round.
stopped_either_way :
    (asked stuck fine : Bool) (e : Ending) (x y rest : Option Loop)
    → Returns e x
    → Returns e y
    → stuck ≡ false
    → (asked ≡ false → Returns e rest)
    → Returns e (if asked then x else if stuck then none else if fine then rest else y)
stopped_either_way true stuck fine e x y rest h h' s k = h
stopped_either_way false true fine e x y rest h h' s k = cc
stopped_either_way false false true e x y rest h h' s k = k refl
stopped_either_way false false false e x y rest h h' s k = h'

module _ (requests : Protobuf RpcRequest) (responses : Protobuf RpcResponse)
    (registry : Registry) where
  close_first :
      (t : Turn) (fd : ℕ) (s : ConnectionState) (m : List (ℕ × ConnectionState)) (w : Worker)
      → w.connections ≡ (fd, s) ∷ m
      → (close_connection requests responses registry t fd w).1.connections ≡ m
  unfolding close_connection close_found
  close_first t fd s m w e =
      let here : (fd == fd) ≡ true = (==_iff fd fd).1 refl in simp (e, here) refl

  close_all-none :
      (t : Turn) (m : List (ℕ × ConnectionState)) (w : Worker)
      → w.connections ≡ m
      → (close_all requests responses registry t (map (λ c. c.0) m) w).connections ≡ []
  unfolding close_all
  close_all-none t [] w e = e
  close_all-none t ((fd, s) ∷ m) w e =
      close_all-none t m (close_connection requests responses registry t fd w).1
        (close_first t fd s m w e)

  close_all-IsSettled :
      (t : Turn) (fds : List ℕ) (w : Worker)
      → IsSettled w
      → IsSettled (close_all requests responses registry t fds w)
  unfolding close_all
  close_all-IsSettled t [] w h = h
  close_all-IsSettled t (fd ∷ fds) w h =
      close_all-IsSettled t fds (close_connection requests responses registry t fd w).1
        (close-IsSettled requests responses registry t fd w h)

  module _ (options : Options) (dispatcher : Option (ℕ → DispatchRequest → Option String)) where
    posts-IsSettled :
        (ps : List Post) (l : Loop) → IsSettled l.worker → IsSettled (posts ps l).worker
    posts-IsSettled ps l h = subst IsSettled (sym (posts-worker ps l)) h

    poll-IsSettled :
        (queue : Option (List CompletedResponse)) (r : Round) (l : Loop)
        → IsSettled l.worker
        → IsSettled
            (poll requests responses registry options dispatcher
              (record r { woken = queue })
              l).1.worker
    unfolding poll
    poll-IsSettled none r l h =
        poll_once-IsSettled requests responses registry options dispatcher r.turn none r.ready
          l.worker h
    poll-IsSettled (some completed) r l h =
        poll_once-IsSettled requests responses registry options dispatcher r.turn
          (some (l.pending, completed)) r.ready l.worker h

    round-IsSettled :
        (epoll : Epoll) (r : Round) (l : Loop)
        → IsSettled l.worker
        → IsSettled
            (round requests responses registry options dispatcher
              (record r { epoll = epoll })
              l).1.worker
    unfolding round
    round-IsSettled interrupted r l h = h
    round-IsSettled failed r l h = h
    round-IsSettled reports r l h = poll-IsSettled r.woken (record r { epoll = reports }) l h

    last_drain-IsSettled :
        (e : Ending) (l : Loop)
        → IsSettled l.worker
        → IsSettled (last_drain requests responses registry options dispatcher e l).worker
    unfolding last_drain
    last_drain-IsSettled e l h = elim (Bool-cases e.drained) [
      | inl on ↦
          rw (on, last_drain)
            (drain_completed-IsSettled requests responses registry e.turn e.completed _ (
              drain_pending-IsSettled requests responses registry options dispatcher e.turn
                l.pending l.worker h))
      | inr off ↦ rw (off, last_drain) h
    ]

    last_drain-refuses :
        (e : Ending) (l : Loop)
        → (last_drain requests responses registry options dispatcher e l).accepting_new_connections
          ≡ l.accepting_new_connections
    unfolding last_drain
    last_drain-refuses e l = ground arith

    last_drain-left :
        (e : Ending) (l : Loop)
        → e.drained ≡ true
        → (last_drain requests responses registry options dispatcher e l).pending ≡ []
    unfolding last_drain
    last_drain-left e l on = ground (arith, on)

    left-Late : (l : Loop) → IsLate l → (l.pending ≡ []) ⊎ ((fd : ℕ) × (l.pending ≡ fd ∷ []))
    left-Late l h = elim h.left [ inl x ↦ inl x | inr (done, x) ↦ inr x ]

    shut_down-Returns :
        (e : Ending) (l : Loop)
        → IsSettled l.worker
        → Returns e (unless_stuck (shut_down requests responses registry options dispatcher e l))
    unfolding shut_down close_all_connections unless_stuck
    shut_down-Returns e l h =
        let refusing : Loop = record l { accepting_new_connections = false } in
        let x = posts e.meanwhile refusing in
        let y = last_drain requests responses registry options dispatcher e x in
        let z = posts e.afterwards y in
        let off : y.accepting_new_connections ≡ false =
          last_drain-refuses e x ∙ posts-refuses e.meanwhile refusing refl in
        let settled : IsSettled z.worker =
          posts-IsSettled e.afterwards y
            (last_drain-IsSettled e x (posts-IsSettled e.meanwhile refusing h)) in
        let end =
          close_all-IsSettled e.turn (map (λ c. c.0) z.worker.connections) z.worker settled in
        (
          record z {
            worker =
                close_all requests responses registry e.turn (map (λ c. c.0) z.worker.connections)
                  z.worker;
          },
          (
            rw (end.free) refl,
            record {
              closed = close_all-none e.turn z.worker.connections z.worker refl;
              refuses = posts-refuses e.afterwards y off;
              left = elim (Bool-cases e.drained) [
                | inl on ↦ inr (
                    left-Late z (
                      posts-IsLate e.afterwards y
                        (record { refuses = off; left = inl (last_drain-left e x on) })))
                | inr never ↦ inl never
              ];
            },
          ),
        )

    run-round :
        (r : Round) (rs : List Round) (e : Ending) (l : Loop)
        → IsSettled l.worker
        → let l' : Loop = posts r.before l in
          let l'' : Loop =
            (round requests responses registry options dispatcher r (posts r.meanwhile l')).1 in
          (l'.stop_requested ≡ false
            → IsSettled l''.worker
            → Returns e (run requests responses registry options dispatcher rs e l''))
          → Returns e (run requests responses registry options dispatcher (r ∷ rs) e l)
    unfolding run
    run-round r rs e l h later =
        let l' = posts r.before l in
        let h' = posts-IsSettled r.before l h in
        let (fine, l'') =
          round requests responses registry options dispatcher r (posts r.meanwhile l') in
        let h'' : IsSettled l''.worker =
          round-IsSettled r.epoll r (posts r.meanwhile l') (posts-IsSettled r.meanwhile l' h') in
        stopped_either_way l'.stop_requested l''.worker.stuck fine e
          (unless_stuck (shut_down requests responses registry options dispatcher e l'))
          (unless_stuck (shut_down requests responses registry options dispatcher e l''))
          (run requests responses registry options dispatcher rs e l'') (shut_down-Returns e l' h')
          (shut_down-Returns e l'' h'') h''.free (λ no. later no h'')

    -- Where every suspended coroutine of the worker is registered as it waits and no `Get()` waits
    -- without end yet, and another thread calls `RequestStop` before some round, `Run` returns, whatever
    -- happens in the rounds and at the end: no `Get()` of a connection that is closed waits for a
    -- coroutine that nobody resumes. By then the worker's table has no connection, and it accepts no
    -- more; and, unless the eventfd could not be read, its queue holds at most one descriptor.
    pub run_stops :
        (early late : List Round) (r : Round) (ps qs : List Post) (e : Ending) (l : Loop)
        → IsSettled l.worker
        → r.before ≡ ps ++ stops ∷ qs
        → (l' : Loop) × ((run requests responses registry options dispatcher (early ++ r ∷ late) e l
              ≡ some l')
            × IsStopped e l')
    run_stops [] late r ps qs e l h asked =
        let on : (posts r.before l).stop_requested ≡ true =
          ap (λ b. (posts b l).stop_requested) asked ∙ stop_among ps qs l in
        run-round r late e l h (λ off h'. cc)
    run_stops (r' ∷ early) late r ps qs e l h asked =
        run-round r' (early ++ r ∷ late) e l h (λ off h'. run_stops early late r ps qs e _ h' asked)
