-- ===== src/Lib.antt =====
-- A model of the CRP facilitator, a payment service for protocol-level tokens (PLT) of Concordium: a
-- merchant's gateway creates a pending challenge, a worker streams the transfers on the chain into
-- Postgres, and a request fulfills the challenge with a transfer, which it claims, and gets a signed
-- receipt. The theorems are about the payment routes and what they call, the worker with its sources,
-- the client of the wallet proxy, the other routes over the tables, and the readiness check.
--
-- Parts, and the files of the repository that they model:
--   Base       texts as code units, JSON values and conversions of the JavaScript runtime, lists
--   NetworkId  src/lib/networkId.ts: names of networks; `networksEquivalent` of src/store/repo.pg.ts
--   Decimals   src/crp/decimals-registry.ts; Decimals.Registry is its registry in memory and those of
--              src/worker/decimalsRegistry.ts and src/worker/pltDecimals.ts
--   Store      the tables (src/store/*.ts, src/contracts/crpGateway.ts, db/migrations); Store.Search is
--              src/store/match.pg.ts, Store.Assets src/store/pltAssets.pg.ts, Store.Events
--              `insertPltTransfers` of src/store/plt.pg.ts
--   Webhook    src/webhook.ts
--   Payments   src/routes/crp.payments.ts: shared helpers; Create, Match and Fulfill with Settle are the
--              handlers of POST /payments, /payments/match and /payments/fulfill, Claiming is
--              `claimPltEvent`, Fulfill.Proofs the receipt, Listing GET /payments/search
--   Worker     src/worker/main.ts: `resolveStartCursor`, `runWorker` and the cursor table; Start is the
--              settings and `runDemo`
--   Source     src/worker/pltSource.concordium.ts; Source.Fixture src/worker/pltSource.fixture.ts
--   WalletProxy  src/services/walletProxyClient.ts with src/config/walletProxy.ts
--   Challenges  src/store/repo.pg.ts: `upsertChallenge`, `getStatus`, `markFulfilled`; Routes is
--              src/routes/challenges.ts, src/routes/admin.ts and src/routes/verify.ts
--   Alias      src/http/crpExactMatchAlias.ts
--   PltSearch  src/plt/pltSearch.ts and src/http/pltEventsRoute.ts; Transfers is src/routes/crp.plt.ts
--   Readiness  src/http/readyz.ts and src/metrics/registry.ts
--   Extractor  src/crp/pltExtractor.ts
--   Payments.Ledger  the steps that requests and the worker make on one database, in any order
--   Examples   tests, and a concrete input for each theorem
-- A handler is a function from the body and the database to the answer and the database. It calls the
-- others as the code does: Fulfill reads through Store.Search, Store.Assets and NetworkId, converts
-- by Decimals, Settle claims by Claiming and posts by Webhook.
--
-- A table is a list of rows. The fulfillment is split where other requests can come between: `decide`
-- is the reads before the transaction, `run_transaction` the transaction. A step `commit` of the
-- ledger takes a settlement decided on an earlier database, and the claiming statement reads a
-- snapshot taken before its insertion. A failing query of that handler is an `Outage`, also the
-- search for the row after the commit; a failed COMMIT has written nothing, or everything, where its
-- acknowledgement is lost. The worker's statements fail by its `Storage`. Of concurrent transactions,
-- the ledger takes the committing order.
--
-- Parameters: the conversions between numbers and text of the runtime and its upper case beyond
-- ASCII, the environment, the HTTP exchanges, JSON.parse, the clock, the signature and its check,
-- Postgres' reading of a timestamp and of a numeric, and in Challenges the printing of JSON and what a
-- JSONB column gives back. The worker's loop takes a source for each tick, and Source makes it from
-- the clock and the wallet proxy at that tick; what the documentation of the proxy says of its
-- answers are the premises IsGapless, IsTruthful, IsResponsive and IsWindow. The list of ticks is the
-- run up to the stop request, so the loop needs no fuel. The retries of WalletProxy recurse on the
-- attempts that are left.
--
-- Not modelled: the rows that are stored are mapped back to the same rows, so `rowToChallenge` and its
-- like are the identity; failing queries of the other handlers, but for PltSearch and the
-- transaction of Challenges, and at the start of the worker; timestamps that cannot be read, since
-- the column is a timestamp; ids, heights and cursors that are no natural numbers, and negative
-- heights among the worker's settings; logging; the loading of keys and the serialization of a
-- signature, the wiring of the server, the clients of the chain, the older workers and the tools,
-- which are calls of libraries around the same tables. Lower case is that of ASCII. The steps of the
-- ledger are those of the payment routes and the worker: `markFulfilled` writes challenges without
-- claiming an event.

pub mod Base
pub mod NetworkId
pub mod Decimals
pub mod Source
pub mod Store
pub mod WalletProxy
pub mod Alias
pub mod PltSearch
pub mod Readiness
pub mod Extractor
pub mod Webhook
pub mod Payments
pub mod Worker
pub mod Challenges
pub mod Examples
