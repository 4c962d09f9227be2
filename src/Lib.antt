-- ===== src/Lib.antt =====
-- mini_rpc: an RPC framework over TCP, with protobuf messages in frames of a length and a body.
--
-- A client opens a slot in its table of pending calls, sends a framed request, and is woken when the
-- response with the same id arrives, when its deadline passes, or when the connection fails. The
-- server reads bytes into a connection's buffer, cuts them into frames, answers each request itself
-- or hands it to a dispatcher, and queues the framed responses in order. The parts, each with the
-- file that models it and the code that it stands for (paths from the repository's root):
--
--   Prelude           shared names, Boolean tests, lists over native numbers, association lists
--   Io                the results of `recv` and `send` as lists; results of fallible code
--   Codec             src/protocol/codec.cpp: ReadN, WriteN, ReadMessage, WriteMessage
--   RpcError          src/common/rpc_error.h, rpc_error.cpp, src/client/rpc_types.h
--   Proto             proto/rpc.proto
--   Pending           src/client/pending_calls.cpp: the table of pending calls
--   Registry          src/server/service_registry.cpp: Register and Find
--   Handler           src/server/connection.cpp: HandleOneRequest
--   Frame             src/server/connection.cpp: EncodeFrame, DecodeFrameHeader
--   Buffer            src/server/connection.h, connection.cpp: Connection::Buffer
--   Connection        src/server/connection.cpp: the state, the awaiters, the deadlines; with
--     Sending         QueueResponse, EnqueueResponse, FlushWrites, OnWritable
--     Receiving       ReadFromSocket, TryParseRequests, OnReadable, Serve
--   Session           src/server/worker_loop.cpp: HandleConnectionCo, with ReadRequestCo and
--                     WriteResponseCo of src/server/connection.cpp; the events of PollOnce
--   Worker            src/server/worker_loop.cpp: AddConnectionOnOwnerThread, CloseConnection,
--                     DrainCompletedResponses, DrainPendingConnections, PollOnce; with
--     Stopping        EnqueueConnection, RequestStop, Run, CloseAllConnections
--   Offload           src/server/worker_loop.cpp: DispatchRequestToThreadPool, RecordMethodCall
--   Server            src/server/rpc_server.cpp: SelectWorker, Start with its phases and its end,
--                     Stop while Start runs
--   Ring              src/common/mpsc_ring_queue.h: TryPush, PopBatch, Empty
--   ThreadPool        src/common/thread_pool.cpp: Start, Submit, Stop, WorkerMain
--   EventLoop         src/client/event_loop.cpp: Init, SetReadFd, WaitOnce, Wakeup
--   Receiver          src/client/rpc_client.cpp: HandleReadableFrames
--   Client            src/client/rpc_client.cpp: Connect, Close, CallAsync, CallCo, the awaiter; with
--     Locks           write_mu_ and the join of Close, by the steps of the two threads
--   Dispatcher        src/client/rpc_client.cpp: DispatcherLoop
--   Balancer          src/client/load_balancer.cpp: RoundRobinBalancer, LeastInflightBalancer
--   Pool              src/client/rpc_client_pool.cpp: Warmup, SelectChannel, Call, CallCo, GetStats
--
-- A C++ method is a function that carries its name in snake case, from the state and the arguments to
-- the new state and the result. `false` with an `*error_msg` is `err`; a call whose results from the
-- operating system run out before it returns is `waiting`. Whom a method wakes (a condition variable,
-- a promise, a coroutine) is part of its result, in order; a coroutine that is resumed runs as a
-- later step. A mutex makes a method one step of a history. Promises and coroutine handles are
-- numbers. Times are natural numbers, and `now` is an argument. A connection is used by its owner
-- thread only, as its class demands, so its methods are steps too.
--
-- The lengths of frames are 32 bits, written in four bytes; the codec's limit of 4 MiB keeps every
-- length that is written below 2 ^ 32. Other counters are `size_t`s that count bytes in memory, so
-- they do not wrap. `read_n`, `write_loop` and the socket loops recur on the list of results. The
-- loop of `TryParseRequests` has as fuel one more than the bytes in the buffer, and every round
-- takes at least five, so the fuel does not run out; the client's loop over frames has the bytes in
-- its buffer as fuel, for the same reason.
--
-- Protobuf is a parameter (`Protobuf`), with the laws that its documentation gives (`IsLawful`): as
-- many bytes are written as were announced, and parsing reads back what was serialized. Handlers
-- and the dispatcher are parameters too, and may answer anything.
--
-- A coroutine runs from point to point on the worker's thread, until it waits or ends; `run_fuel`
-- points are enough, since it passes each wait at most once before it must be woken again.
--
-- A call of the client is not one step: what the other threads do to the table between its steps is
-- an argument, a list of the table's operations, and so is what they do before each round of the
-- dispatcher. That two threads connect and close at once is left out. Whether the join in `Close`
-- returns is an argument too, since `Close` is called under `write_mu_`, for which the dispatcher may
-- wait; Locks steps through that.
--
-- The lock-free queue is stepped at its atomic accesses, by any number of producers and one consumer;
-- its positions are numbers that do not wrap, and memory is sequentially consistent. A task of the
-- thread pool runs at any time after it was submitted: for Offload the pool is what takes it or
-- refuses it, and ThreadPool has the queues and the threads, each stepped at its accesses of what the
-- threads share, with the capacity of the queues as an argument.
--
-- `Run` and `Start` are given their rounds: what other threads do before each, and what epoll reports.
-- They return none while they have not returned after those rounds. The acceptor and the workers are
-- two models that share `Loop`, the queue and the flags between the two threads; the tests and the push
-- of `EnqueueConnection` are two steps there. A `Get()` in `CloseConnection` on a coroutine that stays
-- suspended sets `stuck`, and then `Run` does not return. For the server, a thread that was asked to
-- stop can be joined, and one that was not cannot; a thread of the pool is taken to end its tasks.
--
-- Not modelled: the worker's epoll interest and its eventfd; the server's calls of sockets, `Stop` of a
-- server that does not run, and the snapshots of statistics; the condition variables of the thread
-- pool. The logger, the coroutine machinery, the demos and the code graph service are output, language
-- support and applications.
pub mod Balancer
pub mod Buffer
pub mod Client
pub mod Codec
pub mod Connection
pub mod Dispatcher
pub mod EventLoop
pub mod Frame
pub mod Handler
pub mod Io
pub mod Offload
pub mod Pending
pub mod Pool
pub mod Prelude
pub mod Proto
pub mod Receiver
pub mod Registry
pub mod Ring
pub mod RpcError
pub mod Server
pub mod Session
pub mod ThreadPool
pub mod Worker
