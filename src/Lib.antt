-- ===== src/Lib.antt =====
-- Verification of the OTA API: the server that decides which release a client is offered, tells
-- connected clients of new releases, and manages releases, publish tasks and access keys.
--
-- The parts and how they interact. A client connects by a socket and subscribes to an application
-- (the subscription store). Publishing a release writes a publish task; a worker claims the task
-- under a lease, dispatches the release to every subscriber of the application, with a decision for
-- each one, and completes or fails the task. A release begins as a draft, which is edited and
-- published; then its policy (its users, its scope, whether it is enabled) is changed under a revision,
-- and each change writes a task, with its audit in the same transaction. An operator manages the access keys that the HTTP
-- interface authenticates. The model has a module for each of these parts:
--
-- Prelude: numbers, tests, lists, texts (UTF-16 code units), maps and sets in insertion order,
-- and Result, which stands for code that may throw.
-- Contracts/UserId, Contracts/Version, Contracts/Releases: src/contracts/user-id.ts, version.ts and
-- releases.ts. parseUserId is parse_user_id, compareVersions is compare_versions.
-- Updates/Decision: src/updates/decision/resolve-update.ts. resolveUpdate is resolve_update, its
-- stages run_stages, its candidates is_full_candidate and is_hot_candidate.
-- Realtime/Dispatch: src/realtime/dispatch/dispatch-progress.ts, the counters of one dispatch.
-- Realtime/Subscriptions: src/realtime/subscriptions/connection-subscription.store.ts. The store is a
-- record, each method a function from a store to a store; Queries has those that only read.
-- Realtime/Gateway: src/realtime/gateway/realtime.gateway.ts and src/updates/update-query.service.ts.
-- emitCurrentDecision is emit_current_decision, which returns the gateway, the counters and the messages
-- that the socket library took; whether a socket is there and a send succeeds are arguments.
-- dispatchApplicationUpdate is dispatch_application_update (Gateway/Dispatching), in which other events may
-- change the gateway at each await.
-- Messaging: src/messaging/last-message.service.ts over the rows of its entity. What others write
-- between the read and the deletion of an expired message is an argument.
-- Jobs: src/jobs/publish/publish-task-policy.ts and publish-task-worker.service.ts. The tables are
-- lists of rows (Rows); each transaction of the worker is a function from the database before it to
-- the one after (Worker, Execution); Steps has the interleavings of any number of workers as a
-- relation, in which every clock is arbitrary.
-- Auth/Keys: src/auth/api-key.policy.ts, api-key.service.ts and api-key-management.service.ts.
-- The SHA-256 digest and the drawn identifiers and secrets are arguments.
-- Audience: src/releases/release-audience.ts and src/audit/audience-change.ts.
-- Writes: src/infrastructure/persistence/application-write-transaction.ts and
-- src/audit/application-write-audit.ts. How each call of the driver ends is an argument, and so is the
-- write itself; the state is the outcome and what the database holds for good.
-- Releases: the tables of one application, and the writes of src/releases to them. Records: the mappers
-- of src/releases/release-record.mapper.ts and src/infrastructure/persistence/release-write.mapper.ts,
-- and sql-release.repository.ts. Success: src/audit/release-success-audit.ts. Policy:
-- src/releases/release-management.service.ts, mutatePolicy as policy_write inside mutate_policy, with a
-- PolicyMutation for each request (Policy/Mutations). DraftAudience: its mutateDraftAudience, and
-- replaceUsers and changeScope, which try the draft first. Drafts: release-draft.service.ts and draft-audit.ts, createDraft as create_draft, updateDraft as
-- update_draft and publish as publish_release. Random identifiers and the time are arguments
-- (Call), and so is the driver's form of a date. Logged, Policy/Applied and Drafts/Content,
-- Marking and Publication have what the rows of a write are to hold, apart from the code that
-- writes them.
--
-- Bounds and fuel. Numbers are natural; times are milliseconds, and a difference of times that the
-- code takes is truncated at zero. The loop over the parts of an audited change has as much fuel as
-- there are changes, and each turn takes at least one, so the fuel is enough: the theorem on the plan
-- finds every change in the parts. Sorting is insertion sort with the order of the code. Other loops
-- are structural recursions.
--
-- Not modelled: the HTTP controllers and their validation, the SQL of the statistics and telemetry
-- repositories, migrations, the object storage, timers and logging. Row locks are modelled by
-- transactions that do not overlap. Where a query leaves the order of rows open, the model takes
-- that of the table. The registry of applications is modelled by the catalog revision that it
-- counts. The catalog cache, the handlers of the socket events, and the lists and details of
-- releases are not modelled.
pub mod Prelude
pub mod Contracts
pub mod Updates
pub mod Realtime
pub mod Jobs
pub mod Auth
pub mod Audience
pub mod Writes
pub mod Messaging
pub mod Releases
