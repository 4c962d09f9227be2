-- ===== src/Offload.antt =====
-- `DispatchRequestToThreadPool` of server/worker_loop.cpp: a request as a task of the thread pool,
-- the response that the task hands back, and the statistics.
pub mod Answers
pub mod Counting
mod Tests
use Prim.Native.String.{◌++◌ as str_append}
use mini_rpc.Prelude.{
  ℕ, zero, suc, ◌+◌, ◌-◌, String, Option, none, some, Bool, true, false, not, List, [], ◌∷◌, ◌++◌,
  length, lookup, update, if◌then◌else◌,
}
use mini_rpc.RpcError.{ErrorCode, method_not_found, internal_error, to_int, to_proto_error_code}
use mini_rpc.Proto.{RpcRequest}
use mini_rpc.Registry.{Reply, returns, throws_rpc, throws_std, throws_other, Registry, find}
use mini_rpc.Connection.{DispatchRequest}
use mini_rpc.Worker.{CompletedResponse}

-- What the task captures.
pub record Job : Type 0 where
  pub fd : ℕ
  pub connection_token : ℕ
  pub request : DispatchRequest

-- Calls and failures, under the method's name.
abbrev pub MethodStats : Type 0
MethodStats = List (String × (ℕ × ℕ))

-- Whether there is a pool and a queue; the tasks that the pool has and has not finished; the queue of
-- responses; and the counters.
pub record Offload : Type 0 where
  pub has_pool : Bool
  pub has_queue : Bool
  pub jobs : List Job
  pub responses : List CompletedResponse
  pub accepting : Bool
  pub method_stats : MethodStats
  pub submitted_request_count : ℕ
  pub in_flight_request_count : ℕ
  pub completed_request_count : ℕ

abbrev pub method_key : DispatchRequest → String
method_key r = str_append r.service_name (str_append "." r.method_name)

abbrev pub blank_completed : Job → CompletedResponse
blank_completed j = record {
  fd = j.fd;
  connection_token = j.connection_token;
  request_sequence = j.request.sequence;
  request_id = j.request.request_id;
  proto_error_code = to_int ErrorCode.ok;
  error_msg = "";
  payload = [];
  method_key = method_key j.request;
  handler_success = false;
}

-- The `try` block of the task.
pub completed_by : Job → Reply → CompletedResponse
unfolding to_int
completed_by j (returns payload) = record (blank_completed j) {
  payload = payload;
  handler_success = true;
}
completed_by j (throws_rpc code what) = record (blank_completed j) {
  proto_error_code = to_proto_error_code code;
  error_msg = what;
}
completed_by j (throws_std what) = record (blank_completed j) {
  proto_error_code = to_int internal_error;
  error_msg = str_append "handler exception: " what;
}
completed_by j throws_other = record (blank_completed j) {
  proto_error_code = to_int internal_error;
  error_msg = "handler threw unknown exception";
}

pub run_task : Registry → Job → CompletedResponse
unfolding completed_by to_int
run_task registry j = elim (find j.request.service_name j.request.method_name registry) [
  | none ↦ record (blank_completed j) {
    proto_error_code = to_int method_not_found;
    error_msg = str_append "method not found: " (method_key j.request);
  }
  | some handler ↦ completed_by j (handler j.request.payload)
]

-- `++stats.first`, and `++stats.second` where the handler failed.
abbrev pub count_call : Bool → ℕ × ℕ → ℕ × ℕ
count_call success (calls, failures) = (suc calls, if not success then suc failures else failures)

pub record_method_call : String → Bool → MethodStats → MethodStats
record_method_call method success stats = elim (lookup method stats) [
  | none ↦ (method, count_call success (0, 0)) ∷ stats
  | some s ↦ update method (count_call success s) stats
]

-- On the worker's thread: the error text, or none where the pool has taken the task. `accepted` is
-- what `Submit` returns.
pub dispatch_to_pool : Bool → ℕ → ℕ → DispatchRequest → Offload → Option String × Offload
dispatch_to_pool accepted fd token request o =
    if not o.has_pool
    then (some "thread pool not configured", o)
    else if not o.has_queue
    then (some "worker completion queue not initialized", o)
    else if not accepted
    then (some "thread pool rejected task submission", o)
    else (
      none,
      record o {
        jobs = o.jobs ++ record { fd = fd; connection_token = token; request = request } ∷ [];
        submitted_request_count = o.submitted_request_count + 1;
        in_flight_request_count = o.in_flight_request_count + 1;
      },
    )

-- On a thread of the pool: the task has run to its end, and leaves the pool. Its response is dropped
-- where the worker is past its end.
pub hand_back : CompletedResponse → List Job → Offload → Offload
unfolding record_method_call
hand_back c others o = record o {
  jobs = others;
  method_stats = record_method_call c.method_key c.handler_success o.method_stats;
  responses = if o.accepting then o.responses ++ (c ∷ []) else o.responses;
}

-- The pool picks any of its tasks.
pub finish_at : Registry → ℕ → List Job → List Job → Offload → Offload
unfolding hand_back run_task
finish_at registry i before [] o = o
finish_at registry zero before (j ∷ js) o = hand_back (run_task registry j) (before ++ js) o
finish_at registry (suc i) before (j ∷ js) o = finish_at registry i (before ++ (j ∷ [])) js o

-- The counters of `DrainCompletedResponses`, which takes the whole queue.
pub take_responses : Offload → List CompletedResponse × Offload
take_responses o = (
  o.responses,
  record o {
    responses = [];
    in_flight_request_count = o.in_flight_request_count - length o.responses;
    completed_request_count = o.completed_request_count + length o.responses;
  },
)

-- What the threads do, in any order. `Submit` and the counting after it are one step, since only the
-- worker's thread counts and drains, and a task that ends in between touches no counter. The worker's thread dispatches, drains, and at its end closes the
-- queue; the pool runs tasks.
pub data Happening : Type 0 where
  dispatches : Bool → ℕ → ℕ → DispatchRequest → Happening
  finishes : ℕ → Happening
  drains : Happening
  shuts : Happening

pub happen : Registry → Happening → Offload → Offload
unfolding dispatch_to_pool finish_at take_responses
happen registry (dispatches accepted fd token request) o =
    (dispatch_to_pool accepted fd token request o).1
happen registry (finishes i) o = finish_at registry i [] o.jobs o
happen registry drains o = (take_responses o).1
happen registry shuts o = record o { accepting = false }

pub happen_all : Registry → List Happening → Offload → Offload
unfolding happen
happen_all registry [] o = o
happen_all registry (h ∷ hs) o = happen_all registry hs (happen registry h o)

-- A worker's state after `Init`.
abbrev pub new_offload : Offload
new_offload = record {
  has_pool = true;
  has_queue = true;
  jobs = [];
  responses = [];
  accepting = true;
  method_stats = [];
  submitted_request_count = 0;
  in_flight_request_count = 0;
  completed_request_count = 0;
}
