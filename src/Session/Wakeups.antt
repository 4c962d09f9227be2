-- ===== src/Session/Wakeups.antt =====
-- No wake-up of a connection's coroutine is lost.
use mini_rpc.Prelude.{
  ℕ, zero, suc, ◌≡◌, refl, inl, inr, not, ◌||◌, none, some, Bool, true, false, List, Bool-cases,
  if◌then◌else◌, arith,
}
use mini_rpc.Io.{Outcome, ok, err, waiting, Protobuf}
use mini_rpc.Proto.{RpcRequest, RpcResponse}
use mini_rpc.Registry.{Registry}
use mini_rpc.Connection.{
  Connection, clear_read_deadline, clear_write_deadline, has_pending_write, read_await_ready,
  read_await_suspend, read_await_resume, write_await_ready, write_await_suspend, write_await_resume,
}
use mini_rpc.Connection.Sending.{on_writable}
use mini_rpc.Connection.Receiving.{on_readable}
use mini_rpc.Session.{
  Phase, at_read, at_write, running, ended, Point, top, after_read_wait, writes, after_write_wait,
  Turn, Session, await_read, await_write, Next, stops, goes_on, end_with, wait_or, after_io, move,
  run,
}
use mini_rpc.Session.Steady.{IsSteady, on_readable-IsSteady, on_writable-IsSteady}

pub record IsIdle (c : Connection) : Type 0 where
  pub no_reader : c.read_waiter ≡ none
  pub no_writer : c.write_waiter ≡ none

-- Registered as the only waiter, with a deadline, while there is nothing to be waited for.
pub record IsReading (c : Connection) : Type 0 where
  pub reader : (h : ℕ) × (c.read_waiter ≡ some h)
  pub no_writer : c.write_waiter ≡ none
  pub not_ready : c.read_ready ≡ false
  pub not_closing : c.should_close ≡ false
  pub deadline : (d : ℕ) × (c.read_deadline ≡ some d)

pub record IsWriting (c : Connection) : Type 0 where
  pub writer : (h : ℕ) × (c.write_waiter ≡ some h)
  pub no_reader : c.read_waiter ≡ none
  pub not_ready : c.write_ready ≡ false
  pub not_closing : c.should_close ≡ false
  pub deadline : (d : ℕ) × (c.write_deadline ≡ some d)

abbrev pub IsParkedAt : Phase → Connection → Type 0
IsParkedAt at_read c = IsReading c
IsParkedAt at_write c = IsWriting c
IsParkedAt running c = IsIdle c
IsParkedAt (ended e) c = IsIdle c

-- A coroutine that is suspended is registered where it waits, and one that is not is nowhere.
abbrev pub IsParked : Session → Type 0
IsParked s = IsParkedAt s.phase s.conn

-- Either it stops where it should be, or it goes on with nobody registered.
abbrev NextOk : Next → Type 0
NextOk (stops s) = IsParked s
NextOk (goes_on point c) = IsIdle c

steady-IsIdle : {c c' : Connection} → IsSteady c c' → IsIdle c → IsIdle c'
steady-IsIdle s i = record {
  no_reader = s.no_reader i.no_reader;
  no_writer = s.no_writer i.no_writer;
}

await_read-NextOk :
    (now : ℕ) (c : Connection) → IsIdle c → NextOk (wait_or after_read_wait c (await_read now c))
unfolding await_read read_await_ready read_await_suspend
await_read-NextOk now c i = elim (Bool-cases (c.should_close || c.read_ready)) [
  | inl e ↦ rw (e) i
  | inr e ↦ simp e (record {
    reader = (0, refl);
    no_writer = i.no_writer;
    not_ready = ground (arith, e);
    not_closing = ground (arith, e);
    deadline = (_, refl);
  })
]

await_write-NextOk :
    (now : ℕ) (c : Connection) → IsIdle c → NextOk (wait_or after_write_wait c (await_write now c))
unfolding await_write write_await_ready write_await_suspend
await_write-NextOk now c i = elim (Bool-cases (c.should_close || c.write_ready)) [
  | inl e ↦ rw e i
  | inr e ↦ simp e (record {
    writer = (0, refl);
    no_reader = i.no_reader;
    not_ready = ground (arith, e);
    not_closing = ground (arith, e);
    deadline = (_, refl);
  })
]

after_io-NextOk : (r : Outcome (Unit {0}) × Connection × List ℕ) → IsIdle r.1 → NextOk (after_io r)
unfolding after_io
after_io-NextOk (ok u, c, woken) i = elim (Bool-cases c.should_close) [
  | inl e ↦ simp e i
  | inr e ↦ simp e i
]
after_io-NextOk (err e, c, woken) i = i
after_io-NextOk (waiting, c, woken) i = i

if-NextOk : (b : Bool) (x y : Next) → NextOk x → NextOk y → NextOk (if b then x else y)
if-NextOk true x y a c = a
if-NextOk false x y a c = c

module _ (requests : Protobuf RpcRequest) (responses : Protobuf RpcResponse)
    (registry : Registry) where
  move-NextOk :
      (t : Turn) (point : Point) (c : Connection)
      → IsIdle c
      → NextOk (move requests responses registry t point c)
  unfolding move read_await_resume write_await_resume
  move-NextOk t top c i = if-NextOk c.should_close _ _ i (await_read-NextOk t.now c i)
  move-NextOk t after_read_wait c i =
      let c' : Connection = clear_read_deadline (read_await_resume c) in
      let i' : IsIdle c' = record { no_reader = i.no_reader; no_writer = i.no_writer } in
      if-NextOk c'.should_close (end_with none c')
        (after_io (on_readable requests responses registry t.now t.recvs c')) i'
        (after_io-NextOk (on_readable requests responses registry t.now t.recvs c')
          (steady-IsIdle (on_readable-IsSteady requests responses registry t.now t.recvs c') i'))
  move-NextOk t writes c i =
      if-NextOk (not (has_pending_write c)) (goes_on top c)
        (wait_or after_write_wait c (await_write t.now c)) i (await_write-NextOk t.now c i)
  move-NextOk t after_write_wait c i =
      let c' : Connection = clear_write_deadline (write_await_resume c) in
      let i' : IsIdle c' = record { no_reader = i.no_reader; no_writer = i.no_writer } in
      if-NextOk c'.should_close (end_with none c') (after_io (on_writable t.now t.sends c')) i' (
        after_io-NextOk (on_writable t.now t.sends c')
          (steady-IsIdle (on_writable-IsSteady t.now t.sends c') i'))

  pub run-IsParked :
      (fuel : ℕ) (t : Turn) (point : Point) (c : Connection)
      → IsIdle c
      → IsParked (run requests responses registry fuel t point c)
  unfolding run
  run-IsParked zero t point c i = i
  run-IsParked (suc fuel) t point c i =
      go (move requests responses registry t point c) (move-NextOk t point c i)
        (λ p d j. run-IsParked fuel t p d j)
    where
      go :
          (n : Next)
          → NextOk n
          → ((p : Point) (d : Connection)
              → IsIdle d
              → IsParked (run requests responses registry fuel t p d))
          → IsParked (elim n [
            | stops s ↦ s
            | goes_on point' c' ↦ run requests responses registry fuel t point' c'
          ])
      go (stops s) ok_next later = ok_next
      go (goes_on p d) ok_next later = later p d ok_next
