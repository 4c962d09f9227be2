-- ===== src/Session/Resumed.antt =====
-- What the worker relies on when it closes a connection or hands it a response.
use mini_rpc.Prelude.{ℕ, ◌≡◌, ◌≢◌, ◌⊎◌, refl, ap, ◌∙◌, inl, inr, none, some, false, List, [], ◌∷◌}
use mini_rpc.Io.{Protobuf}
use mini_rpc.Proto.{RpcRequest, RpcResponse}
use mini_rpc.Registry.{Registry}
use mini_rpc.Connection.{Connection, notify_readable, notify_writable, mark_closing}
use mini_rpc.Connection.Sending.{enqueue_response}
use mini_rpc.Connection.Sending.Queueing.{queue_response-cases}
use mini_rpc.Session.{
  Phase, at_read, at_write, running, ended, is_suspended, Turn, Session, closes, top, run_fuel,
  start, resume, resume_all, act, handle,
}
use mini_rpc.Session.Wakeups.{IsParkedAt, IsParked, run-IsParked}
use mini_rpc.Session.Events.{readable-IsParked}
use mini_rpc.Session.Closing.{close-IsEnded}

module _ (requests : Protobuf RpcRequest) (responses : Protobuf RpcResponse)
    (registry : Registry) where
  resume_all-running :
      (t : Turn) (hs : List ℕ) (c : Connection)
      → (resume_all requests responses registry t hs (record { conn = c; phase = running })).phase
        ≡ running
  unfolding resume_all resume
  resume_all-running t [] c = refl
  resume_all-running t (h ∷ hs) c = resume_all-running t hs c

  act-running :
      (f : Connection → Connection × List ℕ) (t : Turn) (c : Connection) (phase : Phase)
      → phase ≡ running
      → (act requests responses registry f t (record { conn = c; phase = phase })).phase ≡ running
  unfolding act
  act-running f t c running e = resume_all-running t (f c).1 (f c).0
  act-running f t c at_read e = cc
  act-running f t c at_write e = cc
  act-running f t c (ended x) e = cc

  -- A coroutine that runs is not suspended by the notifications.
  closed_running :
      (t : Turn) (s : Session)
      → s.phase ≡ running
      → (handle requests responses registry (closes t) s).phase ≡ running
  unfolding handle
  closed_running t s e =
      let s' = act requests responses registry mark_closing t s in
      let s'' = act requests responses registry notify_readable t s' in
      act-running notify_writable t s''.conn s''.phase (
        act-running notify_readable t s'.conn s'.phase
          (act-running mark_closing t s.conn s.phase e))

  running-cases : (phase : Phase) → (phase ≡ running) ⊎ (phase ≢ running)
  running-cases running = inl refl
  running-cases at_read = inr (λ e. cc)
  running-cases at_write = inr (λ e. cc)
  running-cases (ended x) = inr (λ e. cc)

  -- `Get()` returns.
  pub closed-resumed :
      (t : Turn) (s : Session)
      → IsParked s
      → is_suspended (handle requests responses registry (closes t) s).phase ≡ false
  closed-resumed t s v = elim (running-cases s.phase) [
    | inl e ↦ ap is_suspended (closed_running t s e)
    | inr n ↦ let (x, e) = close-IsEnded requests responses registry t s v n in ap is_suspended e
  ]

  pub start-IsParked :
      (t : Turn) (c : Connection)
      → c.read_waiter ≡ none
      → c.write_waiter ≡ none
      → IsParked (start requests responses registry t c)
  unfolding start
  start-IsParked t c r w =
      run-IsParked requests responses registry run_fuel t top c
        (record { no_reader = r; no_writer = w })

  -- What a response in the write buffer changes is not what a coroutine waits on.
  buffered-IsParkedAt :
      (phase : Phase) (c c' : Connection)
      → c'.read_waiter ≡ c.read_waiter
      → c'.write_waiter ≡ c.write_waiter
      → c'.read_ready ≡ c.read_ready
      → c'.write_ready ≡ c.write_ready
      → c'.should_close ≡ c.should_close
      → c'.read_deadline ≡ c.read_deadline
      → (c'.write_deadline ≡ c.write_deadline) ⊎ ((d : ℕ) × (c'.write_deadline ≡ some d))
      → IsParkedAt phase c
      → IsParkedAt phase c'
  buffered-IsParkedAt at_read c c' r w a b s d x v =
      let (h, e) = v.reader in
      let (k, f) = v.deadline in
      record {
        reader = (h, r ∙ e);
        no_writer = w ∙ v.no_writer;
        not_ready = a ∙ v.not_ready;
        not_closing = s ∙ v.not_closing;
        deadline = (k, d ∙ f);
      }
  buffered-IsParkedAt at_write c c' r w a b s d x v =
      let (h, e) = v.writer in
      let (k, f) = v.deadline in
      record {
        writer = (h, w ∙ e);
        no_reader = r ∙ v.no_reader;
        not_ready = b ∙ v.not_ready;
        not_closing = s ∙ v.not_closing;
        deadline = elim x [ inl same ↦ (k, same ∙ f) | inr y ↦ y ];
      }
  buffered-IsParkedAt running c c' r w a b s d x v = record {
    no_reader = r ∙ v.no_reader;
    no_writer = w ∙ v.no_writer;
  }
  buffered-IsParkedAt (ended e) c c' r w a b s d x v = record {
    no_reader = r ∙ v.no_reader;
    no_writer = w ∙ v.no_writer;
  }

  enqueue_response-IsParkedAt :
      (now : ℕ) (m : RpcResponse) (phase : Phase) (c : Connection)
      → IsParkedAt phase c
      → IsParkedAt phase (enqueue_response responses now m c).1
  unfolding enqueue_response
  enqueue_response-IsParkedAt now m phase c v = elim (queue_response-cases responses now m c) [
    | inl (e, q) ↦ rw q v
    | inr (body, s, q) ↦
        rw q (buffered-IsParkedAt phase c _ refl refl refl refl refl refl (inr (_, refl)) v)
  ]

  pub enqueued-IsParked :
      (t : Turn) (m : RpcResponse) (s : Session)
      → IsParked s
      → IsParked (
          act requests responses registry notify_readable t
            (record { conn = (enqueue_response responses t.now m s.conn).1; phase = s.phase }))
  enqueued-IsParked t m s v =
      readable-IsParked requests responses registry t s.phase
        (enqueue_response responses t.now m s.conn).1
        (enqueue_response-IsParkedAt t.now m s.phase s.conn v)
