-- ===== src/Lib.antt =====
-- osqueue: a job queue on object storage. A broker keeps the whole queue in one JSON object and
-- changes it by compare-and-swap; producers and workers talk to the broker. What is modelled is the
-- core: the state machine of the queue, the storage backends, the engine that commits mutations in
-- groups, the election of the broker, the broker's server with its three interfaces, the client with
-- its three transports, and the worker.
--
-- The parts, and how they meet:
-- - Types (packages/types/src/index.ts): jobs, the state of the queue, mutations and their results,
--   versions of an object. Types/Errors (packages/types/src/errors.ts): the tagged errors, what a
--   `catch` can receive, and its wrapping. A call that can throw returns a `Result`.
-- - Queue (packages/core/src/state.ts): `enqueueJobs`, `claimJob`, `heartbeatJob`, `completeJob`,
--   `expireHeartbeats`, `registerBroker` and `applyMutation`, each under the same words. The modules
--   below it hold what each operation does (Operations, Expiry), invariants (Validity, Order),
--   who may touch a job (Ownership) and whole histories of mutations (History).
-- - Storage: `StorageBackend` of packages/types/src/index.ts as a record of operations on a state of
--   its own. Storage/Journal is the promise of compare-and-swap: the contents that an object has
--   held are a journal, a version names one of them, and a write that succeeds was made onto the
--   last content. Storage/Memory (packages/storage/src/memory.ts) meets it, other clients' calls in
--   between included (Memory/Shared), and Storage/Throttled (packages/storage/src/throttled.ts)
--   wraps any backend: Storage/Throttled/Accounted compares its calls with the calls of the backend
--   itself, and with what its statistics report. Storage/S3 (packages/storage/src/s3.ts) meets it on
--   a service that behaves as documented in Storage/S3/Service. Storage/Gcs
--   (packages/storage/src/gcs.ts), on a service as in Storage/Gcs/Service, reads in two calls, which
--   Storage/Gcs/Torn is about.
-- - Engine and Engine/Commit (packages/core/src/group-commit.ts): the buffer of mutations and their
--   promises, the cached state, the write loop. The proofs take any backend that meets the promise
--   of Storage/Journal; those in Tickets, Lost and Registered take any backend at all, and
--   Progress any on which others interfere a limited number of times, as Contended
--   shows of the memory backend. Refines ties what a commit writes to the histories of Queue/History.
--   Engine/Interleaved has the same code cut at each `await`, so that runs of the loop overlap and
--   `submit`, `start` and `stop` come at any time; what the store answers is an argument there, and
--   Interleaved/Accounted says where each promise is, by the lemmas of Interleaved/Once.
-- - Election (packages/core/src/broker-election.ts): `tryElect` and `checkLeadership`, over the same
--   promise.
-- - Broker (packages/broker/src/operations.ts): the mutations that the broker submits for its
--   clients, what it returns for their results, and the views of the cached state. Broker/Calls joins
--   each mutation and its response to the call that a handler makes. Broker/Service
--   (packages/broker/src/service.ts) has the messages of the protocol; Broker/Routes and
--   Broker/Dispatch (packages/broker/src/server.ts) the REST routes with the error handler, and the
--   WebSocket messages; Broker/Server, from the same file, the start, the heartbeat and the stop of a
--   broker, composed from the functions of Election and Engine.
-- - Transports (packages/client/src/transports): the requests and results of types.ts, and an adapter
--   each in Rest (rest.ts), Ws (ws.ts) and Connect (connect.ts). The WebSocket adapter is a state with
--   one function for each call and event; Ws/Once has its steps, in every order.
-- - Exchange: the adapters of Transports against the handlers of Broker, by what a request comes to
--   on its way through both.
-- - Client (packages/client/src/client.ts): the choice of the adapter, discovery through the storage,
--   `reconnect` and the operations, over a record of adapters.
-- - Dashboard (apps/web/app/lib/use-queue.ts): the hook that polls the broker and logs what has
--   changed. Dashboard/Activity has what holds after any number of polls.
-- - Json: what the broker and the client use of JavaScript on JSON values.
-- - Worker (packages/worker/src/worker.ts): `start`, `stop`, `poll` and `tryClaimAndProcess`, cut at
--   each `await`. Worker/Reach has the steps, in every order, and the invariant; Worker/Activity what
--   follows for `activeJobs`, the heartbeats and `stop`.
-- - Base: names of the library, lists, dictionaries, equality tests and decimal numerals. Tests: the
--   theorems at concrete inputs.
--
-- How the code is rendered:
-- - Times, counts and versions are natural numbers. A difference of times stops at 0 where the
--   source would have a negative number; the source compares such a difference only with a timeout,
--   where both give the same answer.
-- - `Date.now()` is an argument; the write loop has a clock, by the number of the attempt.
-- - `crypto.randomUUID()` is a stream of identifiers and the number of those drawn. Where it
--   matters that they are different, a theorem says so among its conditions.
-- - The number of completed jobs is a number, where an old state may lack it and the code reads 0.
-- - The text of the state, JSON in UTF-8, is the parameter `Codec`. Its law, that decoding what was
--   encoded gives the state back, is the condition `decode-encode` of the theorems on the engine.
--   Json/States has the `Codec` of JSON, at the level of the values that the text holds.
-- - A promise is a ticket, and settling it is an entry in a list.
-- - The tokens of a bucket are counted in units of 1/60000, the rate of one token in a minute for
--   each millisecond, so that no division is rounded but the one that the source rounds up.
-- - In Engine/Commit a run of the write loop is one function of the clock and of the mutations that
--   arrive while it is under way: these wait until the run is over, and `stop` does not come during a
--   run. Other clients of the store act inside the backend's state, before each call. In the code a
--   mutation that arrives during a run may start a second one, and `stop` may come at any time; this is
--   what Engine/Interleaved is for. The lengths of waits are in neither.
-- - The attempts of a pass are recursion on the number that is left, `maxRetries`, so there is no
--   further bound on any loop.
-- - The clients of S3 and of Google Cloud Storage are records of the requests that the backends
--   send. What the services document is stated for an object that is never deleted: S3 gives
--   different contents different entity tags, a generation is one content's.
-- - `parseInt` reads a text that starts with neither a blank nor a sign.
-- - A message or a body is the JSON value that its text holds, or none where the text is not JSON. A
--   property that is undefined is left out of an object, as `JSON.stringify` does. A cast of a value
--   to a declared type yields nothing where the value is not of this type: such exchanges are outside
--   the model of the REST interface; the WebSocket interface, which tests its parameters, takes any.
-- - What a submitted mutation comes to is a parameter of the handlers (`Outcomes`), as are `fetch`, the
--   client that Connect generates, and the outcome of Fastify's part of the server's start. The
--   theorems that join the two sides say that `fetch` and this client bring what the broker answers.
-- - The numbers of the protocol are natural numbers; the range of its 32-bit fields (maxAttempts, and
--   the counts of a listing) is not modelled, nor the error that the library throws outside it.
-- - In the server's start and heartbeat, the engine's write loop runs once for the mutation that is
--   awaited; a promise that this run leaves open is never settled.
-- - The callbacks of a worker's options do not throw, and its wait in `stop` is the test that it
--   repeats.
--
-- Not modelled: the URL of a WebSocket and the decoding of binary messages, which are the platform's;
-- what is written to the console; generated code, the example applications, the rendering and the
-- worker's hook of the web dashboard, and the deployment.
pub mod Base
pub mod Json
pub mod Transports
pub mod Exchange
pub mod Client
pub mod Dashboard
pub mod Types
pub mod Queue
pub mod Storage
pub mod Engine
pub mod Election
pub mod Broker
pub mod Worker
mod Tests
