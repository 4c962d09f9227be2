-- ===== src/Session/Events.antt =====
-- The worker's events, on a connection whose coroutine is where it should be.
use mathlib.Core.Path.{subst}
use text.Mathlib.Text.{◌==◌ as str_eq}
use mini_rpc.Prelude.{
  ℕ, ◌≡◌, refl, sym, ap, ◌∙◌, inl, inr, ◌⊎◌, not, ◌||◌, ◌&&◌, String, Option, none, some, List, [],
  ◌++◌, append-nil, Bool-cases,
}
use mini_rpc.Io.{Protobuf}
use mini_rpc.Proto.{RpcRequest, RpcResponse}
use mini_rpc.Registry.{Registry}
use mini_rpc.Connection.{
  Connection, handles, has_passed, is_closed, is_failed, enter_error, notify_readable,
  notify_writable, tick, mark_closing,
}
use mini_rpc.Session.{
  Phase, at_read, at_write, running, ended, after_read_wait, after_write_wait, Turn, Session,
  run_fuel, resume, resume_all, act, Event, readable, writable, ticks, closes, handle,
}
use mini_rpc.Session.Wakeups.{IsIdle, IsParked, IsParkedAt, run-IsParked}

tick-cases :
    (now : ℕ) (c : Connection)
    → (tick now c ≡ (c, [])) ⊎ ((m : String) × (tick now c ≡ enter_error m c))
unfolding tick
tick-cases now c = elim (Bool-cases (is_closed c.state || (is_failed c.state || c.should_close))) [
  | inl over ↦ inl (simp over refl)
  | inr live ↦ elim (Bool-cases (has_passed c.read_deadline now)) [
    | inl late ↦ inr ("read timeout", simp (live, late) refl)
    | inr soon ↦ elim (Bool-cases (has_passed c.write_deadline now)) [
      | inl late ↦ inr ("write timeout", simp (live, soon, late) refl)
      | inr soon' ↦ inl (simp (live, soon, soon') refl)
    ]
  ]
]

nobody : (c : Connection) → IsIdle c → handles c.read_waiter ++ handles c.write_waiter ≡ []
nobody c i = ap (λ r. handles r ++ handles c.write_waiter) i.no_reader ∙ ap handles i.no_writer

module _ (requests : Protobuf RpcRequest) (responses : Protobuf RpcResponse)
    (registry : Registry) where
  -- Whoever was registered is resumed; then the coroutine runs with nobody registered.
  wake_reader :
      (t : Turn) (c : Connection) (o : Option ℕ)
      → (h : ℕ) × (o ≡ some h)
      → IsIdle c
      → IsParked (
          resume_all requests responses registry t
            (handles o)
            (record { conn = c; phase = at_read }))
  unfolding resume_all resume
  wake_reader t c none (h, e) i = absurd cc
  wake_reader t c (some x) h i =
      run-IsParked requests responses registry run_fuel t after_read_wait c i

  wake_writer :
      (t : Turn) (c : Connection) (o : Option ℕ)
      → (h : ℕ) × (o ≡ some h)
      → IsIdle c
      → IsParked (
          resume_all requests responses registry t
            (handles o)
            (record { conn = c; phase = at_write }))
  unfolding resume_all resume
  wake_writer t c none (h, e) i = absurd cc
  wake_writer t c (some x) h i =
      run-IsParked requests responses registry run_fuel t after_write_wait c i

  -- Nobody is registered, so nobody is resumed.
  wake_nobody :
      (t : Turn) (s : Session) (o : Option ℕ)
      → o ≡ none
      → IsParked s
      → IsParked (resume_all requests responses registry t (handles o) s)
  unfolding resume_all
  wake_nobody t s none e v = v
  wake_nobody t s (some h) e v = absurd cc

  pub readable-IsParked :
      (t : Turn) (phase : Phase) (c : Connection)
      → IsParkedAt phase c
      → IsParked
          (act requests responses registry notify_readable t (record { conn = c; phase = phase }))
  unfolding act notify_readable
  readable-IsParked t at_read c v =
      wake_reader t _ c.read_waiter v.reader (record { no_reader = refl; no_writer = v.no_writer })
  readable-IsParked t at_write c v = wake_nobody t _ c.read_waiter v.no_reader (record {
    writer = v.writer;
    no_reader = refl;
    not_ready = v.not_ready;
    not_closing = v.not_closing;
    deadline = v.deadline;
  })
  readable-IsParked t running c v =
      wake_nobody t _ c.read_waiter v.no_reader
        (record { no_reader = refl; no_writer = v.no_writer })
  readable-IsParked t (ended e) c v =
      wake_nobody t _ c.read_waiter v.no_reader
        (record { no_reader = refl; no_writer = v.no_writer })

  writable-IsParked :
      (t : Turn) (phase : Phase) (c : Connection)
      → IsParkedAt phase c
      → IsParked
          (act requests responses registry notify_writable t (record { conn = c; phase = phase }))
  unfolding act notify_writable
  writable-IsParked t at_write c v =
      wake_writer t _ c.write_waiter v.writer (record { no_reader = v.no_reader; no_writer = refl })
  writable-IsParked t at_read c v = wake_nobody t _ c.write_waiter v.no_writer (record {
    reader = v.reader;
    no_writer = refl;
    not_ready = v.not_ready;
    not_closing = v.not_closing;
    deadline = v.deadline;
  })
  writable-IsParked t running c v =
      wake_nobody t _ c.write_waiter v.no_writer
        (record { no_reader = v.no_reader; no_writer = refl })
  writable-IsParked t (ended e) c v =
      wake_nobody t _ c.write_waiter v.no_writer
        (record { no_reader = v.no_reader; no_writer = refl })

  -- Both waiters of a connection are resumed, the reader first.
  wake_both :
      (t : Turn) (phase : Phase) (old c : Connection)
      → IsParkedAt phase old
      → IsIdle c
      → IsParked (
          resume_all requests responses registry t
            (handles old.read_waiter ++ handles old.write_waiter)
            (record { conn = c; phase = phase }))
  unfolding resume_all
  wake_both t at_read old c v i =
      let only : handles old.read_waiter ≡ handles old.read_waiter ++ handles old.write_waiter =
        sym (
          ap (λ w. handles old.read_waiter ++ handles w) v.no_writer
          ∙ append-nil (handles old.read_waiter)) in
      subst
        (λ hs.
          IsParked
            (resume_all requests responses registry t hs (record { conn = c; phase = at_read })))
        only (wake_reader t c old.read_waiter v.reader i)
  wake_both t at_write old c v i =
      let only : handles old.write_waiter ≡ handles old.read_waiter ++ handles old.write_waiter =
        sym (ap (λ r. handles r ++ handles old.write_waiter) v.no_reader) in
      subst
        (λ hs.
          IsParked
            (resume_all requests responses registry t hs (record { conn = c; phase = at_write })))
        only (wake_writer t c old.write_waiter v.writer i)
  wake_both t running old c v i =
      subst
        (λ hs.
          IsParked
            (resume_all requests responses registry t hs (record { conn = c; phase = running })))
        (sym (nobody old v)) i
  wake_both t (ended e) old c v i =
      subst
        (λ hs.
          IsParked
            (resume_all requests responses registry t hs (record { conn = c; phase = ended e })))
        (sym (nobody old v)) i

  closing-IsParked :
      (t : Turn) (phase : Phase) (c : Connection)
      → IsParkedAt phase c
      → IsParked
          (act requests responses registry mark_closing t (record { conn = c; phase = phase }))
  unfolding act mark_closing
  closing-IsParked t phase c v =
      elim (Bool-cases (not (is_closed c.state) && not (is_failed c.state))) [
        | inl e ↦ simp e (wake_both t phase c _ v (record { no_reader = refl; no_writer = refl }))
        | inr e ↦ simp e (wake_both t phase c _ v (record { no_reader = refl; no_writer = refl }))
      ]

  error-IsParked :
      (m : String) (t : Turn) (phase : Phase) (c : Connection)
      → IsParkedAt phase c
      → IsParked
          (act requests responses registry (enter_error m) t (record { conn = c; phase = phase }))
  unfolding act enter_error
  error-IsParked m t phase c v = elim (Bool-cases (str_eq m "")) [
    | inl e ↦ simp e (wake_both t phase c _ v (record { no_reader = refl; no_writer = refl }))
    | inr e ↦ simp e (wake_both t phase c _ v (record { no_reader = refl; no_writer = refl }))
  ]

  ticking-IsParked :
      (t : Turn) (phase : Phase) (c : Connection)
      → IsParkedAt phase c
      → IsParked
          (act requests responses registry (tick t.now) t (record { conn = c; phase = phase }))
  unfolding act resume_all
  ticking-IsParked t phase c v =
      let goal : Connection × List ℕ → Type 0 = λ r.
        IsParked
          (resume_all requests responses registry t r.1 (record { conn = r.0; phase = phase })) in
      elim (tick-cases t.now c) [
        | inl e ↦ subst goal (sym e) v
        | inr (m, e) ↦ subst goal (sym e) (error-IsParked m t phase c v)
      ]

  -- Where a coroutine that is suspended is registered where it waits, with a deadline, and with
  -- neither the flag that it waits for nor `should_close` set, and one that is not suspended is
  -- registered nowhere, this holds again after every event of the worker, also when it closes the
  -- connection.
  pub handle-IsParked :
      (event : Event) (s : Session)
      → IsParked s
      → IsParked (handle requests responses registry event s)
  unfolding handle
  handle-IsParked (readable t) s v = readable-IsParked t s.phase s.conn v
  handle-IsParked (writable t) s v = writable-IsParked t s.phase s.conn v
  handle-IsParked (ticks t) s v = ticking-IsParked t s.phase s.conn v
  handle-IsParked (closes t) s v =
      let s' = act requests responses registry mark_closing t s in
      let s'' = act requests responses registry notify_readable t s' in
      writable-IsParked t s''.phase s''.conn
        (readable-IsParked t s'.phase s'.conn (closing-IsParked t s.phase s.conn v))
