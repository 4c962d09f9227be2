-- ===== src/Session/Closing.antt =====
-- The end of a connection's coroutine: closing and timing out.
use mathlib.Core.Path.{subst}
use text.Mathlib.Text.{◌==◌ as str_eq}
use mini_rpc.Prelude.{
  ℕ, ◌≡◌, ◌≢◌, refl, sym, inl, inr, not, ◌||◌, ◌&&◌, String, Option, none, some, true, false, List,
  [], ◌∷◌, ◌++◌, Bool-cases,
}
use mini_rpc.Io.{Protobuf}
use mini_rpc.Proto.{RpcRequest, RpcResponse}
use mini_rpc.Registry.{Registry}
use mini_rpc.Connection.{
  Connection, handles, has_passed, is_closed, is_failed, enter_error, notify_readable,
  notify_writable, tick, mark_closing, clear_read_deadline, clear_write_deadline, read_await_resume,
  write_await_resume,
}
use mini_rpc.Session.{
  Phase, at_read, at_write, running, ended, after_read_wait, after_write_wait, Turn, Session,
  end_with, run_fuel, run, move, resume, resume_all, act, ticks, closes, handle,
}
use mini_rpc.Session.Wakeups.{IsParked, IsParkedAt}

abbrev pub IsEnded : Session → Type 0
IsEnded s = (e : Option String) × (s.phase ≡ ended e)

tick_late :
    (now : ℕ) (c : Connection)
    → (is_closed c.state || (is_failed c.state || c.should_close)) ≡ false
    → (has_passed c.read_deadline now || has_passed c.write_deadline now) ≡ true
    → (m : String) × (tick now c ≡ enter_error m c)
unfolding tick
tick_late now c live late = elim (Bool-cases (has_passed c.read_deadline now)) [
  | inl r ↦ ("read timeout", simp (live, r) refl)
  | inr r ↦
      let w : has_passed c.write_deadline now ≡ true = simp r at late in
      ("write timeout", simp (live, r, w) refl)
]

module _ (requests : Protobuf RpcRequest) (responses : Protobuf RpcResponse)
    (registry : Registry) where
  not_some : (h : ℕ) × (◌≡◌ {A = Option ℕ} none (some h)) → ⊥
  not_some (h, e) = cc

  resume_all-IsEnded :
      (t : Turn) (hs : List ℕ) (c : Connection) (e : Option String)
      → (resume_all requests responses registry t hs (record { conn = c; phase = ended e })).phase
        ≡ ended e
  unfolding resume_all resume
  resume_all-IsEnded t [] c e = refl
  resume_all-IsEnded t (h ∷ hs) c e = resume_all-IsEnded t hs c e

  -- A coroutine that is resumed on a connection that is closing ends at once.
  run-IsEnded :
      (t : Turn) (c : Connection)
      → c.should_close ≡ true
      → ((run requests responses registry run_fuel t after_read_wait c).phase ≡ ended none)
        × ((run requests responses registry run_fuel t after_write_wait c).phase ≡ ended none)
  unfolding run move read_await_resume write_await_resume
  run-IsEnded t c h =
      let r : Connection = clear_read_deadline (read_await_resume c) in
      let w : Connection = clear_write_deadline (write_await_resume c) in
      let read_move : move requests responses registry t after_read_wait c ≡ end_with none r =
        simp (h, move) refl in
      let write_move : move requests responses registry t after_write_wait c ≡ end_with none w =
        simp (h, move) refl in
      (rw (read_move, run) refl, rw (write_move, run) refl)

  some_not : {y : ℕ} → ◌≡◌ {A = Option ℕ} (some y) none → ⊥
  some_not e = cc

  keeps-IsEnded :
      (t : Turn) (hs : List ℕ) (s : Session)
      → IsEnded s
      → IsEnded (resume_all requests responses registry t hs s)
  keeps-IsEnded t hs s (e, is_e) = (
    e,
    subst
        (λ ph.
          (resume_all requests responses registry t hs (record { conn = s.conn; phase = ph })).phase
          ≡ ended e)
        (sym is_e) (resume_all-IsEnded t hs s.conn e),
  )

  -- One of the registered coroutines is resumed while the connection is closing.
  wake-IsEnded :
      (t : Turn) (phase : Phase) (c : Connection) (r w : Option ℕ)
      → c.should_close ≡ true
      → phase ≢ running
      → (phase ≡ at_read → (h : ℕ) × (r ≡ some h))
      → (phase ≡ at_write → (r ≡ none) × ((h : ℕ) × (w ≡ some h)))
      → IsEnded (
          resume_all requests responses registry t
            (handles r ++ handles w)
            (record { conn = c; phase = phase }))
  unfolding resume_all resume
  wake-IsEnded t at_read c none w h n a b = absurd (not_some (a refl))
  wake-IsEnded t at_read c (some x) w h n a b =
      keeps-IsEnded t (handles w) (run requests responses registry run_fuel t after_read_wait c)
        (none, (run-IsEnded t c h).0)
  wake-IsEnded t at_write c none none h n a b = absurd (not_some (b refl).1)
  wake-IsEnded t at_write c none (some x) h n a b = (none, (run-IsEnded t c h).1)
  wake-IsEnded t at_write c (some y) w h n a b = absurd (some_not (b refl).0)
  wake-IsEnded t running c r w h n a b = absurd (n refl)
  wake-IsEnded t (ended e) c r w h n a b = (e, resume_all-IsEnded t (handles r ++ handles w) c e)

  reader_at :
      (phase : Phase) (c : Connection)
      → IsParkedAt phase c
      → phase ≡ at_read
      → (h : ℕ) × (c.read_waiter ≡ some h)
  reader_at at_read c v e = v.reader
  reader_at at_write c v e = absurd cc
  reader_at running c v e = absurd cc
  reader_at (ended x) c v e = absurd cc

  writer_at :
      (phase : Phase) (c : Connection)
      → IsParkedAt phase c
      → phase ≡ at_write
      → (c.read_waiter ≡ none) × ((h : ℕ) × (c.write_waiter ≡ some h))
  writer_at at_write c v e = (v.no_reader, v.writer)
  writer_at at_read c v e = absurd cc
  writer_at running c v e = absurd cc
  writer_at (ended x) c v e = absurd cc

  -- Both waiters of a parked coroutine, on a connection that is closing by now.
  wake_parked-IsEnded :
      (t : Turn) (phase : Phase) (old c : Connection)
      → IsParkedAt phase old
      → phase ≢ running
      → c.should_close ≡ true
      → IsEnded (
          resume_all requests responses registry t
            (handles old.read_waiter ++ handles old.write_waiter)
            (record { conn = c; phase = phase }))
  wake_parked-IsEnded t phase old c v n h =
      wake-IsEnded t phase c old.read_waiter old.write_waiter h n (reader_at phase old v)
        (writer_at phase old v)

  closing-IsEnded :
      (t : Turn) (phase : Phase) (c : Connection)
      → IsParkedAt phase c
      → phase ≢ running
      → IsEnded
          (act requests responses registry mark_closing t (record { conn = c; phase = phase }))
  unfolding act mark_closing
  closing-IsEnded t phase c v n =
      elim (Bool-cases (not (is_closed c.state) && not (is_failed c.state))) [
        | inl e ↦ simp e (wake_parked-IsEnded t phase c _ v n refl)
        | inr e ↦ simp e (wake_parked-IsEnded t phase c _ v n refl)
      ]

  error-IsEnded :
      (m : String) (t : Turn) (phase : Phase) (c : Connection)
      → IsParkedAt phase c
      → phase ≢ running
      → IsEnded
          (act requests responses registry (enter_error m) t (record { conn = c; phase = phase }))
  unfolding act enter_error
  error-IsEnded m t phase c v n = elim (Bool-cases (str_eq m "")) [
    | inl e ↦ simp e (wake_parked-IsEnded t phase c _ v n refl)
    | inr e ↦ simp e (wake_parked-IsEnded t phase c _ v n refl)
  ]

  -- Where a coroutine is suspended and registered, or has ended, it has ended when
  -- `CloseConnection` has marked the connection and notified its waiters: `Get()` returns.
  pub close-IsEnded :
      (t : Turn) (s : Session)
      → IsParked s
      → s.phase ≢ running
      → IsEnded (handle requests responses registry (closes t) s)
  unfolding handle act
  close-IsEnded t s v n =
      let s' = act requests responses registry mark_closing t s in
      let s'' = act requests responses registry notify_readable t s' in
      keeps-IsEnded t (notify_writable s''.conn).1
        (record { conn = (notify_writable s''.conn).0; phase = s''.phase })
        (keeps-IsEnded t (notify_readable s'.conn).1
          (record { conn = (notify_readable s'.conn).0; phase = s'.phase })
          (closing-IsEnded t s.phase s.conn v n))

  -- A coroutine that is suspended and registered, on a connection that is neither closing, closed
  -- nor failed and one of whose deadlines has passed, is ended by the worker's next tick.
  pub tick_late-IsEnded :
      (t : Turn) (s : Session)
      → IsParked s
      → s.phase ≢ running
      → (is_closed s.conn.state || (is_failed s.conn.state || s.conn.should_close)) ≡ false
      → (has_passed s.conn.read_deadline t.now || has_passed s.conn.write_deadline t.now) ≡ true
      → IsEnded (handle requests responses registry (ticks t) s)
  unfolding handle act
  tick_late-IsEnded t s v n live late =
      let (m, e) = tick_late t.now s.conn live late in
      subst
        (λ r.
          IsEnded
            (resume_all requests responses registry t r.1 (record { conn = r.0; phase = s.phase })))
        (sym e) (error-IsEnded m t s.phase s.conn v n)
