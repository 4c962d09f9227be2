-- ===== src/Server/Life.antt =====
-- `Start` of a server, and a `Stop` that comes meanwhile.
use mini_rpc.Prelude.{
  ◌≡◌, refl, ap, ◌∙◌, arith, Option, some, none, Bool, true, false, not, ◌||◌, List, [], ◌∷◌, ◌++◌,
  if◌then◌else◌,
}
use mini_rpc.ThreadPool.{ThreadPool}
use mini_rpc.Worker.Stopping.{Loop, request_stop}
use mini_rpc.Server.{
  Server, accept_events, Ready, eintr, fails, events, Round, stop_if, accept_loop, Startup, wind_up,
  start, stop_business_thread_pool, join_pool, stop_workers, request_stops, join_all,
  start_business_thread_pool, close_acceptor, not_running,
}

-- The loop has ended.
abbrev pub Ends : Option (Bool × Server) → Type 0
Ends x = (r : Bool × Server) × (x ≡ some r)

choose-Ends :
    (b : Bool) (r : Bool × Server) (x : Option (Bool × Server))
    → (b ≡ false → Ends x)
    → Ends (if b then some r else x)
choose-Ends true r x k = (r, refl)
choose-Ends false r x k = k refl

either-Ends :
    (b : Bool) (x y : Option (Bool × Server)) → Ends x → Ends y → Ends (if b then x else y)
either-Ends true x y h k = h
either-Ends false x y h k = k

served-Ends :
    (x : Ready) (s : Server) (loop : Server → Option (Bool × Server))
    → ((t : Server) → Ends (loop t))
    → Ends (elim x [
      | eintr ↦ loop s
      | fails ↦ some (not s.stop_requested, s)
      | events es ↦
          if s.stop_requested || not s.accepting_new_connections
          then loop s
          else loop (accept_events es s)
    ])
served-Ends eintr s loop k = k s
served-Ends fails s loop k = ((not s.stop_requested, s), refl)
served-Ends (events es) s loop k =
    either-Ends (s.stop_requested || not s.accepting_new_connections) (loop s)
      (loop (accept_events es s)) (k s) (k (accept_events es s))

stop_asked : (b : Bool) (s : Server) → b ≡ true → (stop_if b s).stop_requested ≡ true
unfolding stop_if
stop_asked true s h = refl
stop_asked false s h = cc

accept_loop-Ends :
    (early late : List Round) (r : Round) (s : Server)
    → r.stops_before ≡ true
    → Ends (accept_loop (early ++ r ∷ late) s)
unfolding accept_loop stop_if
accept_loop-Ends [] late r s asked =
    rw (stop_asked r.stops_before s asked) ((false, stop_if r.stops_before s), refl)
accept_loop-Ends (r' ∷ early) late r s asked =
    let before = stop_if r'.stops_before s in
    choose-Ends before.stop_requested (false, before) _
      (λ off.
        served-Ends r'.ready (stop_if r'.stops_during before) (accept_loop (early ++ r ∷ late))
          (λ t. accept_loop-Ends early late r t asked))

-- `Start` has closed what it opened.
pub record IsDown (s : Server) : Type 0 where
  pub idle : s.running ≡ false
  pub joined : s.workers ≡ []
  pub pool_gone : s.business_thread_pool ≡ none
  pub closed : s.listening ≡ false
  pub refuses : s.accepting_new_connections ≡ false

-- No `Join` waits without end, since each worker was asked to stop.
join_all-request_stops : (ls : List Loop) → join_all (request_stops ls) ≡ some (request_stops ls)
unfolding join_all request_stops request_stop
join_all-request_stops [] = refl
join_all-request_stops (l ∷ ls) = rw (join_all-request_stops ls) refl

stop_workers_lem : (s : Server) → stop_workers s ≡ some (record s { workers = [] })
unfolding stop_workers
stop_workers_lem s = rw (join_all-request_stops s.workers, stop_workers) refl

without_pool :
    (pool : Option ThreadPool) (s : Server)
    → stop_business_thread_pool (record s { business_thread_pool = pool })
      ≡ some (record s { business_thread_pool = none })
unfolding stop_business_thread_pool join_pool
without_pool none s = refl
without_pool (some p) s = refl

stop_business_thread_pool_lem :
    (s : Server) → stop_business_thread_pool s ≡ some (record s { business_thread_pool = none })
stop_business_thread_pool_lem s = without_pool s.business_thread_pool s

wind_up-IsDown :
    (fatal : Bool) (s : Server)
    → (s' : Server) × ((wind_up (fatal, s) ≡ some (not fatal, s')) × IsDown s')
unfolding wind_up
wind_up-IsDown fatal s =
    let s' =
      close_acceptor (record s { accepting_new_connections = false; stop_requested = true }) in
    (
      not_running (record s' { business_thread_pool = none; workers = [] }),
      (
        rw
            (
              stop_business_thread_pool_lem s',
              stop_workers_lem (record s' { business_thread_pool = none }),
              wind_up,
            )
            refl,
        record { idle = refl; joined = refl; pool_gone = refl; closed = refl; refuses = refl },
      ),
    )

no_pool_error : (s : Server) → (start_business_thread_pool none s).0 ≡ none
unfolding start_business_thread_pool
no_pool_error s = ground arith

-- Where the phases of `Start` succeed and another thread calls `Stop` before some round of the accept
-- loop, `Start` returns, whatever the sockets do in the other rounds, and no `Join` of its end waits for
-- a thread that was not asked to stop. By then the server no longer runs, it has no workers and no
-- pool, its sockets are closed, and it accepts nothing.
pub start_stops :
    (u : Startup) (early late : List Round) (r : Round) (s : Server)
    → s.running ≡ false
    → u.acceptor ≡ none
    → u.pool ≡ none
    → u.workers ≡ none
    → r.stops_before ≡ true
    → (ok : Bool) × ((s' : Server) × ((start u (early ++ r ∷ late) s ≡ some (ok, s')) × IsDown s'))
unfolding start
start_stops u early late r s idle acceptor pool workers asked =
    let opened = record (stop_if u.stops_early (record s { running = true })) {
      stop_requested = false;
      accepting_new_connections = true;
      next_worker = 0;
      listening = true;
    } in
    let manned = record (start_business_thread_pool u.pool opened).1 { workers = u.started } in
    let (x, e) = accept_loop-Ends early late r manned asked in
    let (s', (ends, down)) = wind_up-IsDown x.0 x.1 in
    let no_error : (start_business_thread_pool u.pool opened).0 ≡ none =
      ap (λ f. (start_business_thread_pool f opened).0) pool ∙ no_pool_error opened in
    (not x.0, (s', (simp (idle, acceptor, no_error, workers, e, ends) refl, down)))
