-- ===== src/Lib.antt =====
-- Agent Multiplex: models of its core and proofs about them.
--
-- Agent Multiplex lets many clients watch and steer coding-agent sessions. Runtime nodes own the
-- sessions and their native event streams (packages/runtime-node-core). Control nodes form a tree:
-- each keeps a durable catalog with a journal of control changes, and one node is the authority for
-- metadata (packages/control-node-core). Clients follow a stream of control and native items, and
-- resume it from a cursor (packages/client). The wire formats are in packages/protocol.
--
-- The files, and what they model:
-- - Mailbox: the bounded mailbox of a subscriber, `AsyncQueue` and `BoundedQueue` of the two files
--   packages/runtime-node-core/src/event-hub.ts and packages/control-node-core/src/event-hub.ts.
--   `Mailbox.run` is a history of calls with the promises that it settles.
-- - EventHub: the native rings of these two hubs, and their replay to a subscriber.
-- - Catalog.Feed: the control journal of packages/control-node-core/src/catalog.ts, that is
--   `controlEventsAfter`, `#appendControl`, `compactControlEvents`, `#rotateControlFeed`, `#mutate`
--   and what it calls. The rows of the table stand in cursor order.
-- - Catalog.Roles: the data role of a control node in the same file, with `applyParentAttachment`,
--   `applyDetachmentReceipt`, `forceDetach` and `promote`. It appends to the journal of Catalog.Feed.
-- - Records: the records of commands, interactions, launches and archives (packages/protocol/src),
--   and the functions of catalog.ts that merge a stored record with an observation of it.
-- - Metadata: session metadata, its patches and the optimistic overlay
--   (packages/protocol/src/metadata.ts and catalog.ts). Metadata.Operations is the journal of patches
--   of a node: `submitMetadataPatch`, `applyMetadataAtAuthority`, `settleMetadataOperation`.
-- - Stream, Client: the items and cursors of packages/protocol/src/stream.ts; the cursor and the
--   handler of `watchAccess` in packages/client/src/access-watch.ts, and `AccessCursor` of
--   packages/client/src/cursor.ts.
-- - Subscription: `startResilientSubscription` of packages/client/src/resilient-subscription.ts. A
--   turn of the event loop is a `Happening`; `Turns.run` is a history of them.
-- - Gateway: packages/gateway-core/src/projection.ts. Gateway.Selection is the selection of sources
--   (`#reselect`): coverage, the conflicts that exclude a source, the order of the candidates.
--   Gateway.Feed is the gateway's own feed: `ingest`, the owners of what the sources show, and what
--   a new subscriber is given. It uses the items of EventHub and the owners of Gateway.Owners.
-- - Terminal: one managed terminal of packages/runtime-node-core/src/terminal.ts: its output, replay
--   ring and attachment, and in Terminal.Keyboard its lease (`acquire`, `renew`, `release`, `input`).
-- - Base, Errors: shared lists, tables, Boolean tests, and results that may be an error.
-- The modules below a component prove its properties; those named Examples hold the tests.
--
-- Conventions. Identifiers, hashes and JSON values are numbers that stand for their canonical text,
-- so that equality of canonical JSON is equality of fields. A `Map` is the list of its entries in
-- insertion order. A call that throws gives `err` with the error's code, or the state that it leaves
-- beside that code. Clock readings and fresh identifiers are arguments. `Date.parse`, SHA-256, HMAC,
-- the canonical JSON text of a record, `localeCompare` and the test for UTF-8 are parameters, with
-- no assumption on them. The delay before a resubscription, which the code computes with floating
-- point and `Math.random()`, is given by its bits. A transaction of SQLite is atomic: an operation
-- gives its new state or none. Loops are recursion on their list, or on fuel: `publish_rounds` has
-- one round for each row and one more, `publish_frames` one for each byte, and
-- both are shown to need no more.
--
-- Not modelled: the services, routers and transports around these parts, the SQL statements, the
-- terminal emulator, timers and abort signals, the gateway's routes and pages, the adapters and the
-- applications; of the catalog, the parent's side of the topology and the imports of a child's feed.
pub mod Base
pub mod Catalog
pub mod Client
pub mod Errors
pub mod EventHub
pub mod Gateway
pub mod Mailbox
pub mod Metadata
pub mod Records
pub mod Stream
pub mod Subscription
pub mod Terminal
