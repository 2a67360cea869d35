-- ===== src/Lib.antt =====
-- Pontis keeps browser bookmarks in step with a server. This library models the sync engine of
-- the browser extension (extension/src/core): the local replica in IndexedDB, the capture of
-- browser events into an outbox of operations, the rounds that exchange operations and changes
-- with the server, and the canonical tree that a stream of changes describes.
--
-- A browser event goes from workerLoop.ts to the handlers of eventProcessor.ts. A handler
-- tells an echo of a remote change from an edit of a person; an edit changes the mirror and
-- queues operations in one transaction. A round of syncCoordinator.ts, under a run lock, marks
-- the queued operations as in flight, sends them, persists results and changes in one
-- transaction, hands the changes to an applier, and drops the operations that the server
-- released. The applier of remoteChangeApplier.ts stores an expectation, asks the browser, and
-- confirms mirror and revision in one transaction. The verifier compares the browser with the
-- mirror and queues what was missed.
--
-- - Base: shared names, and the collections: IndexedDB tables (Base/Table), JavaScript maps
--   (Base/Collection) and the stable sort (Base/Sort).
-- - Protocol, Transport, Browser: the types of protocol/types.ts, the errors of
--   transport/client.ts, and the nodes and events of browser/types.ts.
-- - Store: rows and tables of store/db.ts (PontisDb is the whole database, with the host's
--   clock and the count of drawn ids); Store/Locks the run lock, Store/Subtree collectSubtree,
--   Store/Diagnostics logDiagnostic, and Store/Texts compares texts.
-- - Sync/Tree: sync/canonicalTree.ts; Subtree, Replay and Snapshot hold its theorems.
-- - Sync/Events: sync/eventProcessor.ts, a module per handler (Created, Changed, Moved,
--   Removed) over Scope, Outbox and Echo; Effects says what a handler may do, Refine that each
--   handler does no more, and Safety, Echoes, Announced and Claimed draw the consequences.
-- - Sync/Worker: dispatch of sync/workerLoop.ts, and in Sync/Worker/Pass the triggers of
--   runSync.
-- - Sync/Coordinator: sync/syncCoordinator.ts; Request is buildRequest, Inbox the persisted
--   response and settlePending, Transfers processTransfers, Binding syncBinding and syncAll.
-- - Sync/Applied, Sync/Applier: how a call of the applier ends, and
--   sync/remoteChangeApplier.ts, a module per operation (Create, Update, Move, Delete,
--   Recovery) over Parents, Placement and Commit; Watermark, Guard, Placement/Slots,
--   Placement/Index and Placement/Ranks hold the theorems.
-- - Browser/Snapshot: sync/browserSnapshot.ts.
-- - Sync/Verify: sync/verifyReplica.ts (Scan and Drift the comparison, Repair and Upload what
--   is queued, Quiesce the rounds) and in Integrity sync/integrity.ts; Faithful, Advisory and
--   Verdict hold the theorems on a scan.
-- - Wire: JSON values (Wire/Json); Wire/Validate is protocol/validate.ts, with the bodies that
--   pass in Bodies; Wire/Codec decodes sync responses as packages/protocol/src/codec.ts does.
-- - Tests: a sample replica, runs by computation, and the theorems at concrete inputs.
--
-- State is passed explicitly: an operation takes the database and returns the next one. A
-- transaction, and a handler, is one step; nothing else writes in between, and neither do
-- other tasks while a round waits for the server. Rows of a table stand in the order of their
-- primary keys. Numbers are natural numbers; the revisions, sequence numbers and times of the
-- source are never negative. A field that may be absent or null is an option. The k-th id that
-- the host draws is uuid k, and where a theorem needs it these do not repeat.
--
-- Arguments stand for what the repository's client does not contain: the ids of the host
-- (uuid), localeCompare (locale_after), the printing of numbers and of values (decimal,
-- stringify), isFinite and isNaN, the browser's getChildren (children), and the server, whose
-- state is explicit and whose answers are values or errors. The coordinator takes its applier
-- as an argument too, as the class does, and the verifier takes the coordinator's syncBinding.
-- The browser of the applier and of the verifier is a state of any type with the calls of
-- BrowserAdapter (Browser/Adapter); a call that rejects is a value.
--
-- Fuel bounds the loops that the source leaves unbounded. In removeSubtree one more than the
-- number of nodes is enough, since each pass but the last takes a node. The loop of
-- collectSubtree returns none when its fuel is used up; where parents form no cycle, fuel for
-- the weight of the root's row is enough, since a node outweighs its children. The queue of
-- countSubtree returns none without fuel. The walk of isManagedScope has the bound of the
-- source, 64, and the loop of rounds too, 20; the rounds of quiesceLoop are 64. The depth that
-- a snapshot of the browser may have is bounded by an argument; it is enough if no node's
-- weight exceeds it, where a node weighs less than its parent.
--
-- Where the mirror rows form a cycle, the upload of a transfer runs out of fuel and the model
-- gives the run lock back, while the source would not return. Of the errors of getNode only
-- the unknown id is modelled, as the null that the adapters answer. Not modelled are
-- reconciliation and resync, pairing, the start page and the user interfaces of the extension;
-- the web application, the HTTP client and the rest of the codec; and the server, which is
-- written in Go.
pub mod Base
pub mod Protocol
pub mod Browser
pub mod Transport
pub mod Store
pub mod Wire
pub mod Sync
pub mod Tests
