-- ===== src/Session/Steady.antt =====
-- What the event handlers of server/connection.cpp leave alone: the flags and the waiters.
use text.Mathlib.Text.{◌==◌ as str_eq}
use mini_rpc.Prelude.{
  ℕ, zero, suc, ltb, min, ◌-◌, ◌≡◌, refl, ◌∙◌, inl, inr, ◌⊎◌, String, Option, none, some, true,
  List, [], ◌∷◌, length, Bool-cases, Option-cases, List-cases,
}
use mini_rpc.Io.{
  Bytes, Recv, Send, took, refused, eintr, eagain, other, Outcome, ok, err, waiting, Protobuf,
  continue,
}
use mini_rpc.Proto.{RpcRequest, RpcResponse}
use mini_rpc.Registry.{Registry}
use mini_rpc.Handler.{handle_one_request}
use mini_rpc.Buffer.{readable_bytes}
use mini_rpc.Connection.{PendingChunk, Connection, DispatchRequest, enter_error, has_pending_write}
use mini_rpc.Connection.Sending.{enqueue_response, advance, flush_writes, after_flush, on_writable}
use mini_rpc.Connection.Sending.Queueing.{queue_response-cases}
use mini_rpc.Connection.Receiving.{
  ReadResult, data_read, would_block, peer_closed, read_error, read_from_socket, next_body, consume,
  serve_body, serve_request, answer, dispatch, heartbeat_service_name, heartbeat_response,
  parse_failure, parse_loop, try_parse_requests, after_parse, after_read, on_readable,
}

-- The flags are the same, nobody is registered who was not, and a closing connection stays closing.
pub record IsSteady (c c' : Connection) : Type 0 where
  pub same_read : c'.read_ready ≡ c.read_ready
  pub same_write : c'.write_ready ≡ c.write_ready
  pub no_reader : c.read_waiter ≡ none → c'.read_waiter ≡ none
  pub no_writer : c.write_waiter ≡ none → c'.write_waiter ≡ none
  pub sticky : c.should_close ≡ true → c'.should_close ≡ true

-- All five members are the same.
unchanged :
    (c c' : Connection)
    → c'.read_ready ≡ c.read_ready
    → c'.write_ready ≡ c.write_ready
    → c'.read_waiter ≡ c.read_waiter
    → c'.write_waiter ≡ c.write_waiter
    → c'.should_close ≡ c.should_close
    → IsSteady c c'
unchanged c c' a b r w s = record {
  same_read = a;
  same_write = b;
  no_reader = λ e. r ∙ e;
  no_writer = λ e. w ∙ e;
  sticky = λ e. s ∙ e;
}

trans-IsSteady : {c c' c'' : Connection} → IsSteady c c' → IsSteady c' c'' → IsSteady c c''
trans-IsSteady s t = record {
  same_read = t.same_read ∙ s.same_read;
  same_write = t.same_write ∙ s.same_write;
  no_reader = λ e. t.no_reader (s.no_reader e);
  no_writer = λ e. t.no_writer (s.no_writer e);
  sticky = λ e. t.sticky (s.sticky e);
}

enter_error-IsSteady : (m : String) (c : Connection) → IsSteady c (enter_error m c).0
unfolding enter_error
enter_error-IsSteady m c = elim (Bool-cases (str_eq m "")) [
  | inl e ↦ rw e (record {
    same_read = refl;
    same_write = refl;
    no_reader = λ h. refl;
    no_writer = λ h. refl;
    sticky = λ h. refl;
  })
  | inr e ↦ rw e (record {
    same_read = refl;
    same_write = refl;
    no_reader = λ h. refl;
    no_writer = λ h. refl;
    sticky = λ h. refl;
  })
]

enqueue_response-IsSteady :
    (p : Protobuf RpcResponse) (now : ℕ) (r : RpcResponse) (c : Connection)
    → IsSteady c (enqueue_response p now r c).1
unfolding enqueue_response
enqueue_response-IsSteady p now r c = elim (queue_response-cases p now r c) [
  | inl (e, q) ↦ rw q (unchanged c c refl refl refl refl refl)
  | inr (body, s, q) ↦ rw q (unchanged c _ refl refl refl refl refl)
]

continue-IsSteady :
    (c : Connection) (r : Outcome (Unit {0}) × Connection)
    (k : Connection → Outcome (Unit {0}) × Connection)
    → IsSteady c r.1
    → ((s : Connection) → IsSteady s (k s).1)
    → IsSteady c (continue (λ _. k) r).1
continue-IsSteady c (ok u, s) k a h = trans-IsSteady a (h s)
continue-IsSteady c (err m, s) k a h = a
continue-IsSteady c (waiting, s) k a h = a

pub Outcome-cases :
    {A : Type 0} (o : Outcome A)
    → ((a : A) × (o ≡ ok a)) ⊎ (((e : String) × (o ≡ err e)) ⊎ (o ≡ waiting))
Outcome-cases (ok a) = inl (a, refl)
Outcome-cases (err e) = inr (inl (e, refl))
Outcome-cases waiting = inr (inr refl)

module _ (requests : Protobuf RpcRequest) (responses : Protobuf RpcResponse) (registry : Registry)
    (now : ℕ) where
  answer-IsSteady :
      (d : Option (DispatchRequest → Option String)) (request : RpcRequest) (c : Connection)
      → IsSteady c (answer requests responses registry now d request c).1
  unfolding answer dispatch
  answer-IsSteady (some d) request c = unchanged c _ refl refl refl refl refl
  answer-IsSteady none request c =
      enqueue_response-IsSteady responses now (handle_one_request registry request) c

  serve_body-IsSteady :
      (body : Bytes) (c : Connection)
      → IsSteady c (serve_body requests responses registry now body c).1
  unfolding serve_body serve_request
  serve_body-IsSteady body c = elim (Option-cases (requests.parse body)) [
    | inl e ↦ rw (e, serve_body) (enqueue_response-IsSteady responses now parse_failure c)
    | inr (request, e) ↦
        rw (e, serve_body)
          (elim (Bool-cases (str_eq request.service_name heartbeat_service_name)) [
            | inl hb ↦
                rw (hb, serve_request)
                  (enqueue_response-IsSteady responses now (heartbeat_response request) c)
            | inr plain ↦ rw (plain, serve_request) (answer-IsSteady c.request_dispatcher request c)
          ])
  ]

  parse_loop-IsSteady :
      (fuel : ℕ) (c : Connection) → IsSteady c (parse_loop requests responses registry now fuel c).1
  unfolding parse_loop
  parse_loop-IsSteady zero c = unchanged c c refl refl refl refl refl
  parse_loop-IsSteady (suc fuel) c = elim (Outcome-cases (next_body c.read_buffer)) [
    | inl (none, e) ↦ rw (e, parse_loop) (unchanged c c refl refl refl refl refl)
    | inl (some body, e) ↦
        rw (e, parse_loop)
          (continue-IsSteady c (serve_body requests responses registry now body c) _
            (serve_body-IsSteady body c)
            (λ s.
              trans-IsSteady (unchanged s (consume body s) refl refl refl refl refl)
                (parse_loop-IsSteady fuel (consume body s))))
    | inr (inl (m, e)) ↦ rw (e, parse_loop) (unchanged c c refl refl refl refl refl)
    | inr (inr e) ↦ rw (e, parse_loop) (unchanged c c refl refl refl refl refl)
  ]

  after_parse-IsSteady :
      (r : Outcome (Unit {0}) × Connection)
      → IsSteady r.1 (after_parse requests responses registry now r).1
  unfolding after_parse
  after_parse-IsSteady (ok u, c) = unchanged c _ refl refl refl refl refl
  after_parse-IsSteady (err e, c) = enter_error-IsSteady e c
  after_parse-IsSteady (waiting, c) = unchanged c c refl refl refl refl refl

  after_read-IsSteady :
      (r : Option ReadResult) (c : Connection)
      → IsSteady c (after_read requests responses registry now r c).1
  unfolding after_read try_parse_requests
  after_read-IsSteady none c = unchanged c c refl refl refl refl refl
  after_read-IsSteady (some peer_closed) c = record {
    same_read = refl;
    same_write = refl;
    no_reader = λ e. e;
    no_writer = λ e. e;
    sticky = λ e. refl;
  }
  after_read-IsSteady (some (read_error e)) c = enter_error-IsSteady e c
  after_read-IsSteady (some would_block) c = unchanged c c refl refl refl refl refl
  after_read-IsSteady (some data_read) c =
      trans-IsSteady (parse_loop-IsSteady (suc (readable_bytes c.read_buffer)) c)
        (after_parse-IsSteady (try_parse_requests requests responses registry now c))

  pub on_readable-IsSteady :
      (results : List Recv) (c : Connection)
      → IsSteady c (on_readable requests responses registry now results c).1
  unfolding on_readable
  on_readable-IsSteady results c =
      let read = read_from_socket results c.read_buffer in
      let c' : Connection = record c { read_buffer = read.1 } in
      trans-IsSteady (unchanged c c' refl refl refl refl refl) (after_read-IsSteady read.0 c')

advance-IsSteady :
    (rc : ℕ) (chunk : PendingChunk) (rest : List PendingChunk) (c : Connection)
    → IsSteady c (advance rc chunk rest c)
unfolding advance
advance-IsSteady rc chunk rest c = unchanged c _ refl refl refl refl refl

flush_writes-IsSteady : (rs : List Send) (c : Connection) → IsSteady c (flush_writes rs c).conn
unfolding flush_writes
flush_writes-IsSteady [] c = unchanged c c refl refl refl refl refl
flush_writes-IsSteady (took n ∷ rs) c = elim (List-cases c.write_buffer) [
  | inl e ↦ simp (e, flush_writes) (unchanged c c refl refl refl refl refl)
  | inr (chunk, rest, e) ↦
      let rc : ℕ = min n (length chunk.bytes - chunk.offset) in
      elim (Bool-cases (ltb 0 rc)) [
        | inl s ↦
            simp (e, flush_writes, s)
              (trans-IsSteady (advance-IsSteady rc chunk rest c)
                (flush_writes-IsSteady rs (advance rc chunk rest c)))
        | inr s ↦ simp (e, flush_writes, s) (unchanged c c refl refl refl refl refl)
      ]
]
flush_writes-IsSteady (refused eintr ∷ rs) c = elim (List-cases c.write_buffer) [
  | inl e ↦ simp (e, flush_writes) (unchanged c c refl refl refl refl refl)
  | inr (chunk, rest, e) ↦ simp (e, flush_writes) (flush_writes-IsSteady rs c)
]
flush_writes-IsSteady (refused eagain ∷ rs) c = elim (List-cases c.write_buffer) [
  | inl e ↦ simp (e, flush_writes) (unchanged c c refl refl refl refl refl)
  | inr (chunk, rest, e) ↦ simp (e, flush_writes) (unchanged c c refl refl refl refl refl)
]
flush_writes-IsSteady (refused (other s) ∷ rs) c = elim (List-cases c.write_buffer) [
  | inl e ↦ simp (e, flush_writes) (unchanged c c refl refl refl refl refl)
  | inr (chunk, rest, e) ↦ simp (e, flush_writes) (unchanged c c refl refl refl refl refl)
]

after_flush-IsSteady :
    (now : ℕ) (o : Outcome (Unit {0})) (c : Connection) → IsSteady c (after_flush now o c).1
unfolding after_flush
after_flush-IsSteady now (ok u) c = elim (Bool-cases (has_pending_write c)) [
  | inl e ↦ simp e (unchanged c _ refl refl refl refl refl)
  | inr e ↦ simp e (unchanged c _ refl refl refl refl refl)
]
after_flush-IsSteady now (err e) c = enter_error-IsSteady e c
after_flush-IsSteady now waiting c = unchanged c c refl refl refl refl refl

pub on_writable-IsSteady :
    (now : ℕ) (results : List Send) (c : Connection) → IsSteady c (on_writable now results c).1
unfolding on_writable
on_writable-IsSteady now results c =
    let f = flush_writes results c in
    trans-IsSteady (flush_writes-IsSteady results c) (after_flush-IsSteady now f.outcome f.conn)
