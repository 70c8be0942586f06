-- ===== src/Lib.antt =====
-- 420AI: capture of AI coding sessions on a developer's machine, and the archive that collects them.
--
-- A collector on each machine (apps/collector) watches the session files of AI tools, parses what they
-- gained, and puts the records on a durable local queue; a sync worker drains the queue to the archive
-- and sends heartbeats. The archive (apps/ingest, packages/db, packages/shared) keeps machines,
-- organizations and members, derives operational alerts from the heartbeats, and persists each alert as
-- a firing that is opened, acknowledged, delivered and resolved.
--
-- Which file models which part:
--   Common      shared names, Boolean tests, lists, keyed tables, stable sorting.
--   Queue       apps/collector/src/queue/queue-store.ts: the store is a record of its four tables, and
--               each method is a function of the same name in snake case (enqueue, claimBatch as
--               claim_batch, ack, markFailed, releaseInflight, recoverInflight, stats); Queue/Memory has
--               the cursors, the poll hashes and the connector errors.
--   Watcher     apps/collector/src/watcher: read_grown_prefix, read_snapshot, capture_file, discover and
--               tick_once, over that store, with the onChange and onError of capture-engine.ts.
--   Sync        apps/collector/src/sync/sync-worker.ts (sync_once, run_sync_loop) and heartbeat.ts.
--   Engine      apps/collector/src/capture-engine.ts: the stamping of an outage, drainBeforeExit and its
--               use at shutdown (Engine/Drain, Engine/Shutdown); and the record of fault.ts.
--   Alerts      packages/shared/src/alerts.ts, monitor.ts, and apps/ingest/src/alert-set.ts.
--   Firings     packages/db/src/repositories/alert-firings.ts and packages/shared/src/alert-firings.ts;
--               Firings/Divergence is openFiringsDiverge of apps/ingest/src/alert-set.ts.
--   Health      packages/shared/src/capture-health.ts: the state of each connector of each machine.
--   Quality     packages/shared/src/data-quality.ts: the counts and the ratios over a window.
--   Ingest      packages/db/src/repositories/ingest.ts: how the archive stores a batch that a worker sends.
--   Members     packages/db/src/repositories/members.ts and packages/shared/src/roles.ts.
--   Mfa         packages/db/src/repositories/mfa.ts, the one-time codes of apps/ingest/src/mfa/totp.ts
--               (Mfa/Totp), and the routes of apps/ingest/src/routes/mfa.ts and the administrator's reset of
--               apps/ingest/src/routes/members.ts (Mfa/Factor).
--   Catalogs    packages/db/src/repositories/pricing-catalogs.ts: the signed catalogs and their approval.
--   SingleUse   packages/db/src/repositories/password-resets.ts and pairing.ts, statement by statement.
--   ApiKeys     packages/db/src/repositories/api-keys.ts: mintApiKey as mint_api_key, and so on.
--   Serialize   packages/shared/src/serialize.ts, read back by a reader of RFC 4180.
-- The watcher puts rows on the store that the sync worker drains into batches, which Ingest stores; the
-- queue's totals ride the heartbeats that the liveness of a machine is derived from; the alerts of a
-- snapshot are what a reconcile of the firings is given.
--
-- Conventions. Timestamps are milliseconds or, where the code never computes with them, texts. A
-- random or automatic row id is the value of a counter. A SQL statement is one function on the list of
-- a table's rows; a statement's comparison with NULL is false. A message is its template with the values
-- put in. A call that may throw returns an option or a sum. Calls of other processes (the archive's
-- answer, the clock, the file system, a third-party digest) are an environment that is an argument;
-- nothing is assumed of it beyond what a theorem names. `Array.prototype.sort` is a stable insertion.
--
-- Loops are structural: over a list, or, for the sync loop, over the environment of its passes, one
-- entry a pass, so no fuel is chosen. The drain at shutdown has fuel, one unit a call: as many as the
-- clock has readings before it reaches the deadline, which is what Engine/Drain shows to be enough.
-- Where requests interleave (SingleUse) each statement is a step of its own, and sees what was committed
-- before it. A request on a second factor (Mfa) is given the row that its first SELECT read, which may
-- be any earlier one, and writes to the present tables. A pass of the sync loop is given the rows that
-- the other loops of the process enqueue before it and while it awaits an answer. Elsewhere a transaction
-- is one function. A batch is ingested in the context of its machine's organization, as the route does
-- it: an event that another organization has makes the call throw.
--
-- Not modelled: React and Next.js pages, the desktop shell and the browser extension, HTTP routes and
-- schemas, SQL migrations, the parsers of the single tools, redaction, single sign-on, sessions and
-- passwords, Parquet, and the process-level entry points. Field encryption, HMAC and SHA-256 are calls of
-- the runtime: a column that is encrypted holds its plaintext here, and a digest is a parameter. A write
-- of the local database that throws is not modelled either.
pub mod Common
pub mod Queue
pub mod Sync
pub mod Alerts
pub mod Firings
pub mod Watcher
pub mod Members
pub mod Mfa
pub mod Catalogs
pub mod SingleUse
pub mod Serialize
pub mod Quality
pub mod ApiKeys
pub mod Health
pub mod Ingest
pub mod Engine
