-- ===== src/Session/Fuel.antt =====
-- A run of a connection's coroutine ends within its fuel.
use mini_rpc.Prelude.{
  ℕ, zero, suc, ◌+◌, ◌*◌, ◌<◌, ◌≤◌, ◌≡◌, ◌≢◌, refl, ap, inl, inr, not, ◌||◌, none, Bool, true,
  false, List, Bool-cases, if◌then◌else◌, arith,
}
use mini_rpc.Io.{Outcome, ok, err, waiting, Protobuf}
use mini_rpc.Proto.{RpcRequest, RpcResponse}
use mini_rpc.Registry.{Registry}
use mini_rpc.Connection.{
  Connection, clear_read_deadline, clear_write_deadline, has_pending_write, read_await_ready,
  read_await_suspend, read_await_resume, write_await_ready, write_await_suspend, write_await_resume,
}
use mini_rpc.Connection.Sending.{on_writable}
use mini_rpc.Connection.Receiving.{on_readable}
use mini_rpc.Connection.Receiving.Progress.{IsSound}
use mini_rpc.Connection.Receiving.Socket.{on_readable-IsSound, same-IsSound}
use mini_rpc.Session.{
  running, Point, top, after_read_wait, writes, after_write_wait, Turn, Session, await_read,
  await_write, Next, stops, goes_on, end_with, wait_or, after_io, move, run, run_fuel,
}
use mini_rpc.Session.Steady.{IsSteady, on_readable-IsSteady, on_writable-IsSteady}
use mini_rpc.Session.Io.{
  ends_reading, ends_writing, on_readable-ends, on_writable-ends, on_writable-IsSound,
}

abbrev flag : Bool → ℕ
flag true = 1
flag false = 0

abbrev rank : Point → ℕ
rank top = 1
rank writes = 2
rank after_read_wait = 0
rank after_write_wait = 0

-- How many points may still come.
abbrev pub left : Point → Connection → ℕ
left point c = 3 * (flag c.read_ready + flag c.write_ready) + rank point

-- A coroutine goes on behind a wait only when that is over.
abbrev pub IsDue : Point → Connection → Type 0
IsDue top c = Unit {0}
IsDue writes c = Unit {0}
IsDue after_read_wait c = (c.should_close || c.read_ready) ≡ true
IsDue after_write_wait c = (c.should_close || c.write_ready) ≡ true

abbrev Stopped : Session → Type 0
Stopped s = (s.phase ≢ running) × IsSound s.conn

abbrev Moves : ℕ → Next → Type 0
Moves n (stops s) = Stopped s
Moves n (goes_on point c) = (left point c < n) × (IsDue point c × IsSound c)

await_read-Moves :
    (now : ℕ) (c : Connection)
    → IsSound c
    → Moves (left top c) (wait_or after_read_wait c (await_read now c))
unfolding await_read read_await_ready read_await_suspend
await_read-Moves now c v = elim (Bool-cases (c.should_close || c.read_ready)) [
  | inl e ↦ rw e (omega arith, (e, v))
  | inr e ↦ simp e (λ x. cc, same-IsSound c _ v v.buffer (refl, refl) refl (refl, refl))
]

await_write-Moves :
    (now : ℕ) (c : Connection)
    → IsSound c
    → Moves (left writes c) (wait_or after_write_wait c (await_write now c))
unfolding await_write write_await_ready write_await_suspend
await_write-Moves now c v = elim (Bool-cases (c.should_close || c.write_ready)) [
  | inl e ↦ rw e (omega arith, (e, v))
  | inr e ↦ simp e (λ x. cc, same-IsSound c _ v v.buffer (refl, refl) refl (refl, refl))
]

after_io-Moves :
    (n : ℕ) (r : Outcome (Unit {0}) × Connection × List ℕ)
    → r.0 ≢ waiting
    → IsSound r.1
    → left writes r.1 < n
    → Moves n (after_io r)
unfolding after_io
after_io-Moves n (ok u, c, woken) h v k = elim (Bool-cases c.should_close) [
  | inl e ↦ simp e (λ x. cc, v)
  | inr e ↦ simp e (k, (tt, v))
]
after_io-Moves n (err e, c, woken) h v k = (λ x. cc, v)
after_io-Moves n (waiting, c, woken) h v k = absurd (h refl)

left-steady : (c c' : Connection) → IsSteady c c' → left writes c' ≡ left writes c
left-steady c c' s = omega (arith, ap flag s.same_read, ap flag s.same_write)

-- A test that is made and, if it fails, an input or output.
if-Moves :
    (n : ℕ) (b : Bool) (x y : Next)
    → Moves n x
    → (b ≡ false → Moves n y)
    → Moves n (if b then x else y)
if-Moves n true x y a k = a
if-Moves n false x y a k = k refl

module _ (requests : Protobuf RpcRequest) (responses : Protobuf RpcResponse)
    (registry : Registry) where
  move-Moves :
      (t : Turn) (point : Point) (c : Connection)
      → ends_reading t.recvs ≡ true
      → ends_writing t.sends ≡ true
      → IsDue point c
      → IsSound c
      → Moves (left point c) (move requests responses registry t point c)
  unfolding move read_await_resume write_await_resume
  move-Moves t top c er ew d v =
      if-Moves (left top c) c.should_close (end_with none c)
        (wait_or after_read_wait c (await_read t.now c)) (λ x. cc, v)
        (λ e. await_read-Moves t.now c v)
  move-Moves t after_read_wait c er ew d v =
      let c' : Connection = clear_read_deadline (read_await_resume c) in
      let v' : IsSound c' = same-IsSound c c' v v.buffer (refl, refl) refl (refl, refl) in
      let r = on_readable requests responses registry t.now t.recvs c' in
      if-Moves (left after_read_wait c) c'.should_close (end_with none c') (after_io r)
        (λ x. cc, v')
        (λ e.
          let ready : c.read_ready ≡ true = ground (arith, d, e) in
          after_io-Moves (left after_read_wait c) r
            (on_readable-ends requests responses registry t.now t.recvs c' er v')
            (on_readable-IsSound requests responses registry t.now t.recvs c' v')
            (omega (
              arith,
              left-steady c' r.1
                  (on_readable-IsSteady requests responses registry t.now t.recvs c'),
              ap flag ready,
            )))
  move-Moves t writes c er ew d v =
      if-Moves (left writes c) (not (has_pending_write c)) (goes_on top c)
        (wait_or after_write_wait c (await_write t.now c)) (omega arith, (tt, v))
        (λ e. await_write-Moves t.now c v)
  move-Moves t after_write_wait c er ew d v =
      let c' : Connection = clear_write_deadline (write_await_resume c) in
      let v' : IsSound c' = same-IsSound c c' v v.buffer (refl, refl) refl (refl, refl) in
      let r = on_writable t.now t.sends c' in
      if-Moves (left after_write_wait c) c'.should_close (end_with none c') (after_io r)
        (λ x. cc, v')
        (λ e.
          let ready : c.write_ready ≡ true = ground (arith, d, e) in
          after_io-Moves (left after_write_wait c) r (on_writable-ends t.now t.sends c' ew)
            (on_writable-IsSound t.now t.sends c' v')
            (omega
              (arith, left-steady c' r.1 (on_writable-IsSteady t.now t.sends c'), ap flag ready)))

  run-Stopped :
      (fuel : ℕ) (t : Turn) (point : Point) (c : Connection)
      → ends_reading t.recvs ≡ true
      → ends_writing t.sends ≡ true
      → IsDue point c
      → IsSound c
      → left point c < fuel
      → Stopped (run requests responses registry fuel t point c)
  unfolding run
  run-Stopped zero t point c er ew d v h = absurd (omega (arith, h))
  run-Stopped (suc fuel) t point c er ew d v h =
      go (left point c) (move requests responses registry t point c)
        (move-Moves t point c er ew d v) h (λ p c' d' v' k. run-Stopped fuel t p c' er ew d' v' k)
    where
      go :
          (n : ℕ) (x : Next)
          → Moves n x
          → n < suc fuel
          → ((p : Point) (c' : Connection)
              → IsDue p c'
              → IsSound c'
              → left p c' < fuel
              → Stopped (run requests responses registry fuel t p c'))
          → Stopped (elim x [
            | stops s ↦ s
            | goes_on point' c' ↦ run requests responses registry fuel t point' c'
          ])
      go n (stops s) m k later = m
      go n (goes_on p c') m k later = later p c' m.1.0 m.1.1 (omega (arith, k, m.0))

  flag-le : (b : Bool) → flag b ≤ 1
  flag-le true = omega arith
  flag-le false = omega arith

  rank-le : (p : Point) → rank p ≤ 2
  rank-le top = omega arith
  rank-le writes = omega arith
  rank-le after_read_wait = omega arith
  rank-le after_write_wait = omega arith

  -- On a sound connection, and with a socket that does not block, the coroutine that goes on where
  -- its wait is over does wait again or end within `run_fuel` points, and the connection stays sound.
  pub run-stops :
      (t : Turn) (point : Point) (c : Connection)
      → ends_reading t.recvs ≡ true
      → ends_writing t.sends ≡ true
      → IsDue point c
      → IsSound c
      → ((run requests responses registry run_fuel t point c).phase ≢ running)
        × IsSound (run requests responses registry run_fuel t point c).conn
  run-stops t point c er ew d v =
      run-Stopped run_fuel t point c er ew d v
        (omega (arith, flag-le c.read_ready, flag-le c.write_ready, rank-le point))
