-- ===== src/Lib.antt =====
-- AnimaMesh: the event ledger that the tools of the repository report to and what is read off it, and
-- the coordinator that the nodes of the mesh register with.
--
-- The program's parts. Tools probe the network (a bootstrap check, a simulator, a ghost detector, a
-- keyspace inspector, a tunnel mock, a spec checker). An adapter (tools/ledger/src/adapters.ts) turns a
-- tool's output into events; the ledger (tools/ledger/src/ledger.ts) numbers them by a logical clock and
-- appends each as one line of JSON to a file, under a key of the registry (tools/ledger/src/schema.ts).
-- Views (projections.ts, replay.ts), the causal graph (causal.ts) and the contradiction engine
-- (contradictions.ts) read the events.
-- Apart from these, a node of the mesh (node/src) makes a signed record of its proxy and finds those of
-- others, and the worker (worker/src/index.ts) keeps what the nodes of the mesh register: runners
-- post proxies and signed records, with a time to live, and users fetch subscriptions and snapshots.
--
-- The files.
--   Prelude and its children: Boolean tests on native numbers, lists, texts, dictionaries (the `Map`s of
--     the source, in the order of insertion) and a stable sort (`Array.prototype.sort`).
--   Ledger/Event: types.ts, the events and JSON values. Ledger/Schema: schema.ts, with `normalizeKey` as
--     `normalize_key` and so on. Ledger/Store: ledger.ts; `SwarmLedger` is the object with the text of its
--     file, and every method takes and returns it. Ledger/Projections, Ledger/Contradictions,
--     Ledger/Replay, Ledger/Adapters and Ledger/Causal: the files of those names; Ledger/Causal/Walk has
--     `getAncestors` and `getDescendants` of causal.ts.
--   Worker/Platform: what the worker calls of its platform, `checkAuth` and the times to live. Worker/Kv:
--     `kvPut`, `kvGet`, `kvDelete`, `kvList`, on the bound namespace (a parameter) or the map in memory.
--     Worker/Host, Worker/Canonical, Worker/Record: `isValidEndpointHost`, `canonicalize` and
--     `verifyPublicRecord`. Worker/Subscription: the lines of a subscription. Worker/Handlers,
--     Worker/Views, Worker/Fetch: the handlers that write, those that read, and the routes.
--   Node/Record, Node/Signing, Node/Discover, Node/Snapshot: the files of those names under node/src, of
--     snapshot.ts `createSnapshot`; Node/Accepted and Node/Valid: a node's own record before the worker's
--     `verifyPublicRecord` and before `isRecordValid`.
--   Tunnel: tools/mock/tunnel-emitter.ts. Tunnel/Endpoint: the random endpoints; Tunnel/Emitter: the class
--     `TunnelEmitter` with the timers that it sets, which a process calls and the event loop fires;
--     Tunnel/Args: the command line.
--   Pipeline: tools/ci/ci-pipeline.ts, `ingestResults`, which puts the outputs of the tools through the
--     adapters into the ledger, `runDemo`, and in Pipeline/Args the command line.
--   Monitor: tools/monitor/ghost-detector.ts, the scan of a file, and Monitor/Exit: its exit code.
--   Harness: tools/harness/verifier.ts, and Harness/Metrics: metrics.ts. Keyspace: the keys and the scan of
--     tools/debug/keyspace-inspector.ts, and Keyspace/Report: its output.
--
-- Exceptions are `none`. The loops of the source go over lists, so recursion is structural, but for the
-- walks over causal edges, which run on fuel: two more than the number of edges, which is enough.
-- Numbers in values are fractions that are not negative; times and counts are natural numbers.
-- JSON.stringify, JSON.parse, randomUUID, Date.now and the running process are parameters: what is
-- relied on of JSON is the record `EventCodec`, and for the worker and the node the record `Platform`,
-- which also has dates and the verification of a signature; Node's crypto module is `NodeCrypto`. How
-- JavaScript compares what are not two numbers or two texts is an argument too (`coerced`, `exceeds`). A
-- `Math.random()` is a fraction below 1 that the caller gives, and the event loop's choice of a timer is
-- given too. A request reads the clock once. Lowering a text is modelled on ASCII letters.
--
-- Not modelled: what only prints (`formatReport`, `replaySummary`), file descriptors, the process, the
-- headers of a response, `verifyEd25519` (Web Crypto), the decoding of keys, libp2p and IPFS, and the
-- other tools of the repository.
pub mod Prelude
pub mod Ledger
pub mod Worker
pub mod Harness
pub mod Keyspace
pub mod Monitor
pub mod Node
pub mod Pipeline
pub mod Tunnel
