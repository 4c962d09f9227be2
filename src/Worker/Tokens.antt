-- ===== src/Worker/Tokens.antt =====
-- Responses of the thread pool reach the connection that they are for, and no other.
use mini_rpc.Prelude.{
  ℕ, ◌==◌, ◌<◌, ◌≡◌, ◌≢◌, refl, sym, ap, ◌∙◌, inl, inr, String, Option, none, some, true, List, [],
  ◌∷◌, arith, some_inj, Bool-cases, ==_iff,
}
use mini_rpc.Io.{Outcome, ok, err, waiting, Protobuf}
use mini_rpc.Proto.{RpcRequest, RpcResponse}
use mini_rpc.Registry.{Registry}
use mini_rpc.Connection.{Connection, DispatchRequest, Options}
use mini_rpc.Connection.Sending.{enqueue_response}
use mini_rpc.Session.{Turn}
use mini_rpc.Worker.{
  CompletedResponse, ConnectionState, Worker, lookup_fd, update_fd, erase_fd, count_completed,
  response_of, add_connection, close_found, close_connection, after_enqueue, deliver_to, deliver,
  drain_completed,
}

lookup-update_other :
    (k j : ℕ) (s : ConnectionState) (m : List (ℕ × ConnectionState))
    → k ≢ j
    → lookup_fd j (update_fd k s m) ≡ lookup_fd j m
lookup-update_other k j s [] h = refl
lookup-update_other k j s ((i, r) ∷ m) h = ground (arith, h, lookup-update_other k j s m h)

lookup-erase_other :
    (k j : ℕ) (m : List (ℕ × ConnectionState)) → k ≢ j → lookup_fd j (erase_fd k m) ≡ lookup_fd j m
lookup-erase_other k j [] h = refl
lookup-erase_other k j ((i, r) ∷ m) h = ground (arith, h, lookup-erase_other k j m h)

-- The response is for another descriptor, or for an earlier connection under the same one.
abbrev pub IsForeign : ℕ → ConnectionState → CompletedResponse → Type 0
IsForeign fd s c = c.fd ≡ fd → c.connection_token ≢ s.connection_token

abbrev pub AllForeign : ℕ → ConnectionState → List CompletedResponse → Type 0
AllForeign fd s [] = Unit {0}
AllForeign fd s (c ∷ cs) = IsForeign fd s c × AllForeign fd s cs

abbrev pub AllBefore : ℕ → List CompletedResponse → Type 0
AllBefore n [] = Unit {0}
AllBefore n (c ∷ cs) = (c.connection_token < n) × AllBefore n cs

module _ (requests : Protobuf RpcRequest) (responses : Protobuf RpcResponse)
    (registry : Registry) where
  close_found-other :
      (t : Turn) (k fd : ℕ) (o : Option ConnectionState) (w : Worker)
      → k ≢ fd
      → lookup_fd fd (close_found requests responses registry t k o w).1.connections
        ≡ lookup_fd fd w.connections
  unfolding close_found
  close_found-other t k fd none w h = refl
  close_found-other t k fd (some s) w h = lookup-erase_other k fd w.connections h

  after_enqueue-other :
      (t : Turn) (c : CompletedResponse) (r : ConnectionState) (q : Outcome (Unit {0}) × Connection)
      (w : Worker) (fd : ℕ)
      → c.fd ≢ fd
      → lookup_fd fd (after_enqueue requests responses registry t c r q w).connections
        ≡ lookup_fd fd w.connections
  unfolding after_enqueue close_connection
  after_enqueue-other t c r (ok u, conn) w fd h = lookup-update_other c.fd fd _ w.connections h
  after_enqueue-other t c r (err e, conn) w fd h =
      close_found-other t c.fd fd (lookup_fd c.fd w.connections) w h
  after_enqueue-other t c r (waiting, conn) w fd h = refl

  deliver_to-foreign :
      (t : Turn) (c : CompletedResponse) (o : Option ConnectionState) (w : Worker) (fd : ℕ)
      (s : ConnectionState)
      → lookup_fd c.fd w.connections ≡ o
      → lookup_fd fd w.connections ≡ some s
      → IsForeign fd s c
      → lookup_fd fd (deliver_to requests responses registry t c o w).connections ≡ some s
  unfolding deliver_to
  deliver_to-foreign t c none w fd s o e h = e
  deliver_to-foreign t c (some r) w fd s o e h =
      elim (Bool-cases (r.connection_token == c.connection_token)) [
        | inr other ↦ rw other e
        | inl same ↦
            let apart : c.fd ≢ fd = λ f.
              let is_s : r ≡ s = some_inj (sym o ∙ ap (λ k. lookup_fd k w.connections) f ∙ e) in
              h f (
                sym ((==_iff r.connection_token c.connection_token).0 same)
                ∙ ap (λ x. x.connection_token) is_s) in
            rw same (
              after_enqueue-other t c r
                (enqueue_response responses t.now (response_of c) r.session.conn) w fd apart
              ∙ e)
      ]

  drain_completed-foreign :
      (t : Turn) (cs : List CompletedResponse) (w : Worker) (fd : ℕ) (s : ConnectionState)
      → lookup_fd fd w.connections ≡ some s
      → AllForeign fd s cs
      → lookup_fd fd (drain_completed requests responses registry t cs w).connections ≡ some s
  unfolding drain_completed deliver
  drain_completed-foreign t [] w fd s e h = e
  drain_completed-foreign t (c ∷ cs) w fd s e h =
      drain_completed-foreign t cs (deliver requests responses registry t c w) fd s
        (deliver_to-foreign t c (lookup_fd c.fd w.connections) (count_completed w) fd s refl e h.0)
        h.1

  before-foreign :
      (fd n : ℕ) (s : ConnectionState) (cs : List CompletedResponse)
      → s.connection_token ≡ n
      → AllBefore n cs
      → AllForeign fd s cs
  before-foreign fd n s [] e a = tt
  before-foreign fd n s (c ∷ cs) e a =
      ((λ f same. absurd (omega (arith, e, same, a.0))), before-foreign fd n s cs e a.1)

  add_connection-found :
      (options : Options) (dispatcher : Option (ℕ → DispatchRequest → Option String)) (t : Turn)
      (fd : ℕ) (w : Worker)
      → lookup_fd fd w.connections ≡ none
      → let (added, w') = add_connection requests responses registry options dispatcher t fd w in
        (added ≡ true)
        × ((s : ConnectionState) × ((lookup_fd fd w'.connections ≡ some s)
              × (s.connection_token ≡ w.next_connection_token)))
  unfolding add_connection
  add_connection-found options dispatcher t fd w free =
      let here : (fd == fd) ≡ true = (==_iff fd fd).1 refl in
      simp (free, here) (refl, (_, (refl, refl)))

  -- A connection that is added under a free descriptor is not touched by any response to an earlier
  -- connection, even if that had the same descriptor.
  pub drain_completed-add_connection :
      (options : Options) (dispatcher : Option (ℕ → DispatchRequest → Option String)) (t t' : Turn)
      (fd : ℕ) (w : Worker) (late : List CompletedResponse)
      → lookup_fd fd w.connections ≡ none
      → AllBefore w.next_connection_token late
      → let (added, w') = add_connection requests responses registry options dispatcher t fd w in
        (added ≡ true)
        × ((s : ConnectionState) × ((lookup_fd fd w'.connections ≡ some s)
              × (lookup_fd fd (drain_completed requests responses registry t' late w').connections
                  ≡ some s)))
  drain_completed-add_connection options dispatcher t t' fd w late free b =
      let (added, (s, (found, token))) = add_connection-found options dispatcher t fd w free in
      let w' : Worker = (add_connection requests responses registry options dispatcher t fd w).1 in
      (
        added,
        (
          s,
          (
            found,
            drain_completed-foreign t' late w' fd s found
                (before-foreign fd w.next_connection_token s late token b),
          ),
        ),
      )
