-- ===== src/Lib.antt =====
-- WebInspector: a control plane that has nodes of five kinds test web sites, and compares what they
-- see. This library models the decisions of the control plane, which are in memory and pure but for
-- the copies that they put into a store.
--
-- The parts, the files that model them, and how they correspond:
--
--   Prelude         Boolean tests on the native numbers and on texts, lists, the `Result` of a function
--                   that can throw, `Dict` for a `Map` or an object (keys in the order of insertion),
--                   and `trim`; searches in texts, and a text that a mark divides (Cut).
--   Contracts       shared/contracts/versions.mjs (Versions), nodes.mjs (Nodes) and commands.mjs
--                   (Commands). A version is read through the code points of its text.
--   Bundles         shared/protocol/bundle-signing.mjs (Signing), and in Registry
--                   control-plane/control/bundle-registry.mjs with `makeDataRef` of
--                   shared/protocol/data-plane.mjs.
--   Comparison      control-plane/comparison/classify.mjs: the `ok` field of a result has four values,
--                   since the code tells `undefined` from the rest; confidences are in tenths.
--   Control         control-plane/control/: UpdateManager is update-manager.mjs, Enrollment is
--                   enrollment.mjs, Registry is registry.mjs, Dispatcher is dispatcher.mjs, Reboot is
--                   reboot-manager.mjs, Reconciler is reconciler.mjs.
--   Scheduler       control-plane/scheduler/: run-orchestrator.mjs (Orchestrator), node-selection.mjs
--                   (Selection) and lifecycle.mjs (Lifecycle).
--   Server          control-plane/server/: RateLimit is rate-limit.mjs, Auth is auth.mjs, LongPoll is
--                   the part of channel.mjs that serves nodes without a WebSocket, Inbound its
--                   `handleInbound`, with the dispatches that the orchestrator makes of a result.
--   Reporting       control-plane/reporting/: Views, Csv and Html are final-report.mjs, SitePacket is
--                   site-packet.mjs with `summarizeResult` of control-plane-agent/core/index.mjs.
--   Supervisor      control-plane-agent/: Router is commands/index.mjs, Worker is
--                   worker-manager/lifecycle.mjs, Updater is updater/apply-bundle.mjs and rollback.mjs
--                   with the health gate of worker-manager/health.mjs, Connection is
--                   core/connection.mjs.
--   Agent           agent/: Probe is probe/initial-test.mjs, Browser is browser/browser-validation.mjs,
--                   from what the browser gathered for a page (the record `Page`).
--
-- The selection chooses among the nodes of the registry, and the dispatcher sends to their sessions.
-- The orchestrator takes its nodes from the selection and sends jobs through the dispatcher; results
-- come back through `onResult`, and a dispatch that fails becomes a result. A URL is completed by
-- `finalize`, which calls the comparison. The reconciler asks the update manager for the plan of a
-- node and for the next wave of a rollout; the versions contract decides what is behind.
--
-- The supervisor of a node runs each command through the router; the updater drives the worker manager.
-- What the platform and the handlers answer are arguments: an `Attempt` lists the answers that one update
-- gets, in the order of the calls, and what is handled while its health gate sleeps; nothing is handled
-- between its other calls. In the worker manager a call that waits for the platform has two halves, and
-- what is handled between them are events of their own; `start`, `stop` and `restart` are whole runs of
-- the calls.
--
-- A round of the reconciler reads the registry and the update manager and sends through the dispatcher;
-- its commands refer to bundles of the bundle registry. A command reaches a node through its channel,
-- and what comes up the channel goes to the registry, the dispatcher, the reboot manager or the
-- orchestrator, whose next jobs go out through the dispatcher. A message that the server sends down a long-poll waits in the session's queue, and an
-- envelope that the supervisor sends up waits in the connection's outbox. The worker's probe and page verdicts come up
-- as summaries, which the orchestrator records, the site packet checks for evidence and the final report
-- shows.
--
-- State is passed explicitly: each operation takes the state and answers the new one, with the value or
-- the error beside it. Objects that the source mutates in place are entries of the map that owns them.
-- Promises of `dispatchStage` are the list `dispatching`, settled one by one, oldest first. Times are
-- natural numbers. Fresh ids, random tokens and credentials are arguments. SHA-256, the decoding of
-- hex, the certificate parser (the record `Platform`) and `normalizeUrl`, which rests on the URL
-- parser, are parameters, and so are ed25519, the network of a probe (the record `Network`) and how
-- JavaScript writes a number. The probe follows redirects with fuel: `follow` has one unit for each round
-- of the source's loop, which makes eleven, and its result without fuel is the source's answer after the
-- loop. Every other loop is over a list, a text, or the segments of the longer of two versions. Texts are
-- compared without case by their ASCII letters, and a text's length is in characters.
--
-- Not modelled: the event log, the timestamps of records and messages for people, the HTTP server, the
-- state stores, the WebSocket upgrade and its frames, the drivers of the browser and of the platforms,
-- the style sheet of the report, the keys of sites and the portal.
pub mod Prelude
pub mod Contracts
pub mod Bundles
pub mod Comparison
pub mod Control
pub mod Scheduler
pub mod Supervisor
pub mod Server
pub mod Reporting
pub mod Agent
