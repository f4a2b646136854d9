-- ===== src/Lib.antt =====
-- obsidian-archivist: incremental backups of an Obsidian vault to Dropbox. This library models the
-- core of the plugin and proves what makes it correct.
--
-- The program. Vault events go to a queue (src/infra/EventQueue.ts). A state machine
-- (src/services/SchedulerFSM.ts) decides when a backup runs. A backup (src/services/
-- BackupService.ts) sorts the queued events into changed, deleted and renamed paths, uploads blobs
-- and a manifest, adds a row to the snapshot index (src/services/SnapshotIndexStore.ts), moves HEAD
-- and saves the local index. A restore (src/services/RestoreService.ts) walks from a snapshot to
-- the nearest full one and replays the manifests. Retention (src/services/RetentionService.ts and
-- src/services/retention) prunes manifests, and garbage collection (src/services/GCService.ts)
-- deletes blobs that no row references. On startup, src/services/StartupRecovery.ts repairs what a
-- crash between two steps of a commit has left.
--
-- The files, and the code that each models:
--   Common: Boolean tests, lists, sets and maps as lists, texts as lists of character codes with
--     the order of strings.
--   Model: the records of src/model, the failures of src/model/Errors.ts by class and code.
--   Events: src/infra/EventQueue.ts. Queue has the state and the operations, Laws what the queue
--     holds, Dedup what the duplicate check drops.
--   Scheduler: src/services/SchedulerFSM.ts. State has the fields of the class and what it reads,
--     Planner the computations on slots and the buttons of the notice, Timers the grace and quiet
--     timers, Methods the other public methods, Tick `tick`, Machine all calls as one step
--     function. Invariant, Starts, Locks, Slots and Notices are the theorems.
--   Backup: src/services/BackupService.ts. `bucketQueueEntries` and `buildChanges` (Buckets),
--     `saveLocalIndex` (LocalIndex), `walkChainToFull` (ChainWalk), the reads and uploads (Uploads),
--     `commitSnapshot` as seven steps on the stored state (Commit), the rebuild of the index that
--     src/main.ts wires into it (Rebuild), the state of the service and
--     `assertVaultOwnership` (Session), `runFull` (Runs), what an incremental has to do (Planning)
--     and `runIncremental` (IncRuns); Building has src/services/ManifestBuilder.ts. Theorems: on the
--     window of the queue and the local index (Windows, Agreement), on uploads (Batching,
--     UploadLaws, ReadLaws), on the commit (Consistent, Rebuilt, Stages, Protocol, Writes, Sync,
--     Collision)
--     and on runs (RunKeeps, FullSteps, FullRun, IncFiles, IncSteps, IncRun, Blocked, Reconciled),
--     and on what a restore then gives back (Restorable).
--   Paths: src/util/paths.ts (Cells, Remote, Slug) and the ids of snapshots (Stamps), with
--     `deriveId` and `epochMsFromSnapshotId`; SlugLaws has the theorem on slugs.
--   Devices: src/services/DeviceCoordinator.ts (Coordinator) and src/services/VaultIdentity.ts
--     (Identity), and the ids that both generate (Uuid); Conflicts and Claims are the theorems.
--   Store: src/services/SnapshotIndexStore.ts (Index, Queue) and `appendToIndexWithSelfHeal` of
--     src/services/BackupService.ts (Heal), and src/services/RepairService.ts (Repair);
--     Laws, Kept and Repaired have theorems on the rows.
--   Restore: `materializeVaultStateAt` (Replay), `loadChainToFull` (Chain) and `fetchContent`
--     (Fetch) of src/services/RestoreService.ts, and src/services/ManifestCache.ts (Cache); Laws,
--     Walk, Complete and Cached are the theorems.
--   Retention: evaluator.ts (Dates, Tiers), chainIntegrity.ts (Ancestors) and RetentionService.ts
--     (Service, Pass); Floor, Buckets, Closure, Chains, Pruning and Passes are the theorems.
--   Gc: src/services/GCService.ts (Sweep); Safety has the theorems.
--   Startup: src/services/StartupRecovery.ts (Report, Manifests, Recovery); Laws, Repaired,
--     Converges and Again are the theorems.
--   Maintenance: src/services/MaintenanceScheduler.ts (Job); Lost has the theorem on a commit that
--     comes beside the job.
--   Examples: the theorems at concrete inputs, and tests.
--
-- Conventions. Instants and sizes are natural numbers; where the source subtracts and the result
-- may be negative, the comparison is written with a sum. What a call of Dropbox, of the plugin's
-- storage, of `Date` or of a timer answers is an argument: a result, an optional failure, or a
-- function in a record. An async function that throws returns `err`, with the state that its
-- earlier steps left. Sets and maps are lists in insertion order. Logs are left out.
--
-- Bounds. The walk to a full snapshot and the walk along ancestors are `while` loops with a set of
-- visited ids; they recurse on fuel. Each round visits a known id that it has not seen, so that one
-- round more than there are known ids is enough. `walkChainToFull` stops at a hundred links, and
-- has one round more. The other loops are structural.
--
-- Not modelled: the Dropbox client, the plugin's storage, tokens and logs (I/O), the user
-- interface and the entry point (wiring), the schema guards over JSON, the calendar, globs and
-- retries, change detection, version histories.
pub mod Common
pub mod Model
pub mod Restore
pub mod Backup
pub mod Store
pub mod Gc
pub mod Retention
pub mod Events
pub mod Startup
pub mod Scheduler
pub mod Examples
pub mod Paths
pub mod Devices
pub mod Maintenance
