-- ===== src/Offload/Counting.antt =====
-- The counters of a worker's requests.
use mini_rpc.Prelude.{
  Bool-cases, ◌⊎◌, inl, inr, ℕ, zero, suc, ◌+◌, ◌≤◌, ◌≡◌, refl, true, false, List, [], ◌∷◌, ◌++◌,
  arith, length, length-append,
}
use mini_rpc.Registry.{Registry}
use mini_rpc.Offload.{
  DispatchRequest, CompletedResponse, Job, Offload, dispatch_to_pool, hand_back, run_task,
  finish_at, take_responses, Happening, dispatches, finishes, drains, shuts, happen, happen_all,
  new_offload,
}

-- Every request that was submitted is in flight or completed; and those in flight are the pool's tasks
-- and the responses in the queue, and, once the queue is closed, those dropped.
pub record IsCounted (o : Offload) : Type 0 where
  pub balanced : o.submitted_request_count ≡ o.in_flight_request_count + o.completed_request_count
  pub covered : length o.jobs + length o.responses ≤ o.in_flight_request_count
  pub exact : o.accepting ≡ true → length o.jobs + length o.responses ≡ o.in_flight_request_count

hand_back-IsCounted :
    (done : CompletedResponse) (others : List Job) (o : Offload)
    → IsCounted o
    → length o.jobs ≡ suc (length others)
    → IsCounted (hand_back done others o)
unfolding hand_back
hand_back-IsCounted done others o c one = record {
  balanced = c.balanced;
  covered = ground (arith, c.covered, one, length-append o.responses (done ∷ []));
  exact = λ on. ground (arith, c.exact on, on, one, length-append o.responses (done ∷ []));
}

finish_at-IsCounted :
    (registry : Registry) (i : ℕ) (before js : List Job) (o : Offload)
    → IsCounted o
    → length o.jobs ≡ length before + length js
    → IsCounted (finish_at registry i before js o)
unfolding finish_at
finish_at-IsCounted registry i before [] o c e = c
finish_at-IsCounted registry zero before (j ∷ js) o c e =
    hand_back-IsCounted (run_task registry j) (before ++ js) o c
      (omega (arith, e, length-append before js))
finish_at-IsCounted registry (suc i) before (j ∷ js) o c e =
    finish_at-IsCounted registry i (before ++ (j ∷ [])) js o c
      (omega (arith, e, length-append before (j ∷ [])))

dispatched-IsCounted :
    (fd token : ℕ) (request : DispatchRequest) (o : Offload)
    → IsCounted o
    → IsCounted (record o {
      jobs = o.jobs ++ record { fd = fd; connection_token = token; request = request } ∷ [];
      submitted_request_count = o.submitted_request_count + 1;
      in_flight_request_count = o.in_flight_request_count + 1;
    })
dispatched-IsCounted fd token request o c =
    let one =
      length-append o.jobs (record { fd = fd; connection_token = token; request = request } ∷ []) in
    record {
      balanced = omega (arith, c.balanced);
      covered = omega (arith, c.covered, one);
      exact = λ on. omega (arith, c.exact on, one);
    }

happen-IsCounted :
    (registry : Registry) (h : Happening) (o : Offload)
    → IsCounted o
    → IsCounted (happen registry h o)
unfolding happen dispatch_to_pool take_responses
happen-IsCounted registry (dispatches accepted fd token request) o c =
    ground (arith, c.balanced, c.covered, c.exact, dispatched-IsCounted fd token request o c)
happen-IsCounted registry (finishes i) o c =
    finish_at-IsCounted registry i [] o.jobs o c (omega arith)
happen-IsCounted registry drains o c = record {
  balanced = omega (arith, c.balanced, c.covered);
  covered = omega (arith, c.covered);
  exact = λ on. omega (arith, c.exact on);
}
happen-IsCounted registry shuts o c = record {
  balanced = c.balanced;
  covered = c.covered;
  exact = λ on. cc;
}

happen_all-IsCounted :
    (registry : Registry) (hs : List Happening) (o : Offload)
    → IsCounted o
    → IsCounted (happen_all registry hs o)
unfolding happen_all
happen_all-IsCounted registry [] o c = c
happen_all-IsCounted registry (h ∷ hs) o c =
    happen_all-IsCounted registry hs (happen registry h o) (happen-IsCounted registry h o c)

IsCounted-parts :
    (o : Offload)
    → IsCounted o
    → (o.submitted_request_count ≡ o.in_flight_request_count + o.completed_request_count)
      × (length o.jobs + length o.responses ≤ o.in_flight_request_count)
      × ((o.accepting ≡ false) ⊎ (length o.jobs + length o.responses ≡ o.in_flight_request_count))
IsCounted-parts o c = elim (Bool-cases o.accepting) [
  | inl on ↦ (c.balanced, c.covered, inr (c.exact on))
  | inr off ↦ (c.balanced, c.covered, inl off)
]

-- Whatever the worker and the pool do, and in whatever order: the requests submitted are those in
-- flight and those completed; the tasks of the pool and the responses in the queue are in flight, so
-- that no counter goes below 0; and either the worker has closed its queue, or nothing else is in
-- flight.
pub requests_balance :
    (registry : Registry) (hs : List Happening)
    → let o : Offload = happen_all registry hs new_offload in
      (o.submitted_request_count ≡ o.in_flight_request_count + o.completed_request_count)
      × (length o.jobs + length o.responses ≤ o.in_flight_request_count)
      × ((o.accepting ≡ false) ⊎ (length o.jobs + length o.responses ≡ o.in_flight_request_count))
requests_balance registry hs = IsCounted-parts (happen_all registry hs new_offload) (
    happen_all-IsCounted registry hs new_offload
      (record { balanced = refl; covered = omega arith; exact = λ on. refl }))
