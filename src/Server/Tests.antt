-- ===== src/Server/Tests.antt =====
-- A server with two workers that accepts three connections and is stopped, and the theorems at that
-- input.
use mini_rpc.Prelude.{ℕ, ◌≡◌, refl, some, none, Bool, true, false, List, [], ◌∷◌, ◌++◌, get_elem?}
use mini_rpc.Worker.Stopping.{Loop, enqueue_connection, test_connection}
use mini_rpc.Server.{
  Server, new_server, select_worker, enqueue_at, accept_one, Accept, accepted, interrupted, drained,
  accept_all, accept_events, accept_loop, Round, events, eintr, stop_if, Startup, start,
}
use mini_rpc.Server.Dealing.{sockets, dealt, round_robin}
use mini_rpc.Server.Life.{IsDown, start_stops}

abbrev worker : ℕ → Loop
worker n = record {
  worker = record {
    worker_id = n;
    connections = [];
    next_connection_token = 1;
    total_accepted_count = 0;
    in_flight_request_count = 0;
    completed_request_count = 0;
    stuck = false;
  };
  pending = [];
  accepting_new_connections = true;
  stop_requested = false;
  wakeups = 0;
  handing = none;
}

-- The second worker no longer accepts.
abbrev stopping : Loop
stopping = record (worker 1) { accepting_new_connections = false }

abbrev two : Server
two = record (new_server 2 2) {
  workers = worker 0 ∷ worker 1 ∷ [];
  accepting_new_connections = true;
  running = true;
  listening = true;
}

abbrev arrivals : List Accept
arrivals = accepted 7 ∷ interrupted ∷ accepted 8 ∷ accepted 9 ∷ drained ∷ accepted 10 ∷ []

first_and_third : dealt 2 0 0 (sockets arrivals) ≡ 7 ∷ 9 ∷ []
unfolding dealt sockets
first_and_third = refl

-- A socket that the worker refuses is closed by its owner, and its number once more.
refused_closes_twice :
    (accept_one 8 (record two { workers = worker 0 ∷ stopping ∷ []; next_worker = 1 })).closed
    ≡ 8 ∷ 8 ∷ []
unfolding accept_one select_worker enqueue_at enqueue_connection test_connection
refused_closes_twice = refl

round_robin_example :
    (l' : Loop) × ((get_elem? (accept_all arrivals two).workers 0 ≡ some l')
      × ((l'.accepting_new_connections ≡ true)
          × (l'.pending ≡ [] ++ dealt 2 0 0 (sockets arrivals))))
round_robin_example = round_robin arrivals two 0 0 (worker 0) refl refl refl refl

abbrev startup : Startup
startup = record {
  stops_early = false;
  acceptor = none;
  pool = none;
  workers = none;
  started = worker 0 ∷ worker 1 ∷ [];
}

abbrev serving : Round
serving = record {
  stops_before = false;
  ready = events ((true, arrivals) ∷ []);
  stops_during = false;
}

abbrev last : Round
last = record { stops_before = true; ready = eintr; stops_during = false }

start_stops_example :
    (ok : Bool) × ((s' : Server) × ((start startup (serving ∷ last ∷ []) (new_server 2 2)
          ≡ some (ok, s'))
        × IsDown s'))
start_stops_example =
    start_stops startup (serving ∷ []) [] last (new_server 2 2) refl refl refl refl refl

-- A `Stop` that comes before `Start` resets the flags has no effect.
early_stop_is_lost :
    start (record startup { stops_early = true }) (serving ∷ []) (new_server 2 2) ≡ none
unfolding start stop_if accept_loop accept_events
early_stop_is_lost = refl
