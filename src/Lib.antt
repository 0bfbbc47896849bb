-- ===== src/Lib.antt =====
-- The core of prism-control-plane: who may spend, what a chat request goes through and costs, and how
-- the books are kept and corrected.
--
-- The parts, and the files that they model:
--   Balance    src/balance.ts: the spend gate and the split of a charge over the monthly allowance
--              and the prepaid credit.
--   Catalog    src/catalog.ts: the entry types, lookup, the filter by tier, and what is spendable.
--   Meter      src/meter.ts: reading a usage object, pricing it, operator overrides, unit prices and
--              the estimate of a stream that sent no usage.
--   Store      src/store.ts (Schema) and src/store-d1.ts. Sql has the shapes of the statements;
--              Clients, Tokens, Settings and Jobs have the tables of keys and tickets, credentials,
--              prices and plans, and jobs;
--              Accounts, Usage, Adjustments and Buckets have `createAccount`, `grantCredit`,
--              `recordUsage`, `applyUsageAdjustment`, `advanceReconcileState`,
--              `listUsageEventsBetween`, `claimRateBucket` and the reads that they need, as
--              functions on a database of tables. Audit says what its counters must add up to.
--   RateLimit  src/rate-limit.ts: the fixed window, pure and against the store.
--   Plans      src/plans.ts: which stored rows are a plan, tiers, and the output cap.
--   Auth       src/auth.ts and `constantTimeEqual` of src/crypto.ts: client keys and callers.
--   Reconcile  src/reconcile.ts (Reconcile) and src/reconcile-run.ts (Run, Report): the decision on
--              one row of the gateway's log, and a whole run over its pages.
--   ChatRequest src/chat-request.ts: which bodies are a chat request (Turns, Image, Limits).
--   Http       src/http.ts: error codes, and the reading of a body under a cap.
--   Inference  src/inference.ts: the readers of what an upstream answers.
--   Stream     src/stream.ts: the scanner of a metered stream (Scanner), and the relay as a step
--              function over what happens to it.
--   AnthropicSse src/anthropic-sse-to-openai.ts: the frames of a chat completion made from those of
--              Anthropic, and from an answer that comes whole (Deferred); Stream meters what it sends.
--   Chat       src/routes/chat.ts and the parts of src/routes/shared.ts that it calls: the gates of
--              POST /v1/chat/completions (Gates), and the ledger row and the answer on each outcome
--              of the model's call (Spend).
--   GatewayLog src/aig-logs.ts: a row as it comes in and the exact conversion of its cost (Cost).
--   Enroll     src/routes/clients.ts: the enrollment of a device by a token (Granted, Devices).
--   NonChat    src/routes/nonchat.ts and the readers of src/nonchat-upstream.ts: the doors for images,
--              speech, transcription, video and music (Gates, Assets, Meter), each handler whole.
--   Jobs       src/routes/jobs.ts: the poll of a job and the list of a client's jobs.
--   LongRun    src/routes/longrun-workflow.ts: a job as a workflow of three steps, with their retries.
--   Period     src/period.ts: the billing month.
--   VideoDuration src/video-duration.ts: how long a video a model is asked for.
--   Prelude    notation, lists, integers, JavaScript numbers, JSON values and texts.
--
-- How they meet: `resolveClient` reads the tables that Store keeps; the gate and the split of
-- Balance and the prices of Meter decide the amounts of the events that `recordUsage` writes; a
-- reconciliation run reads those events back, decides with Reconcile, and writes true-ups through
-- `applyUsageAdjustment`; the limiter claims its buckets in Store. The chat route puts them together:
-- ChatRequest reads the body, Auth and Plans say who asks and for what, RateLimit, Catalog, Meter and
-- Balance open or shut, and after the call Meter prices what Inference or Stream has read, Balance
-- splits it, and Store records it, for a stream when the relay of Stream says that it has ended. Between two steps of a request that wait, others may write: each
-- step takes the database as it stands then, and the whole handler is their composition. The other
-- doors share its gates, spend by the unit, and either answer at once or begin a job: then a row of
-- Store, which Jobs shows to its client, and a workflow of LongRun, which charges for it at its end.
--
-- Conventions. A function has the name of the source's, in snake case. Money columns, token counts
-- and times are natural numbers: the code keeps them as integers below 2^53, where a JavaScript
-- number is exact; a duration that a client asks for may be past that, and VideoDuration rounds it as
-- JavaScript does. Where the code tests a number (`Number.isInteger`, `isFinite`, a sign) the model
-- has the JavaScript number, reduced to what is tested. Times are seconds in Store and RateLimit and
-- milliseconds since the epoch in Reconcile, both later than the settling time. Identifiers and
-- texts are strings; a text that the code walks is its list of code points. Lower-casing is that of
-- ASCII. SQLite keeps PRIMARY KEY and UNIQUE; D1 does not enforce foreign keys. A batch of D1 is all
-- or nothing; the operations ending in `_upto` stop after a number of statements, as a crash does.
--
-- Arguments instead of definitions: the SHA-256 digest, the gateway's log feed, the ids that a run
-- mints, and the database's clock; for a request, the runner that calls the model, the source of its
-- credential, `atob`, `TextDecoder`, `JSON.parse`, `Date.UTC`, and how JavaScript rounds and prints
-- a number. For the other doors and the jobs: the runner with what it builds for a provider, the
-- bindings to AI and to workflows, the links into the media store and what comes of storing and
-- copying there, and what each attempt at a step of a workflow meets. Where a theorem needs what is
-- documented of one of these, it says so: a streaming decoder decodes bytes in parts as it decodes
-- them at once (Stream.Chunks), and month 12 is January of the next year (Period).
--
-- Fuel: the loop over the pages of a run counts pages down. One page more than the cap on rows is
-- enough on any feed whose rows can be read; a feed of unreadable full pages has no bound in the
-- code either. A step of a workflow has the attempts that its options say, two and four, as its fuel:
-- the runtime makes no more. The loop that cuts a text into slices runs as often as the text has
-- units, which is enough.
--
-- Not modelled: operator prose and log lines; the other routes, the dispatch to providers and their wire
-- formats; receipts and certificates; credentials and their encryption; speech sessions and the
-- media routes; the table of models itself.
pub mod Prelude
pub mod Balance
pub mod Catalog
pub mod Meter
pub mod Store
pub mod RateLimit
pub mod Plans
pub mod Auth
pub mod Reconcile
pub mod ChatRequest
pub mod Stream
pub mod Http
pub mod Inference
pub mod Period
pub mod VideoDuration
pub mod Chat
pub mod Enroll
pub mod GatewayLog
pub mod NonChat
pub mod Jobs
pub mod LongRun
pub mod AnthropicSse
