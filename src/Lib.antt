-- ===== src/Lib.antt =====
-- A model of the core of the Wordflow backend, the Python package src/ldaca_wordflow: what decides
-- which work is admitted, in which order it runs, how its records change, and what the clients are
-- told of it. Paths below are relative to that package.
--
-- The parts and their files:
-- - Base: Boolean tests, lists, dictionaries (a Python dict is a list of pairs in the order in which
--   its keys came in) and `Result`, the outcome of code that may raise. Text: a string is the list of
--   its code points.
-- - FairQueue (services/fair_queue.py): `FairUserQueue`, one ordered list of items for each user and
--   the rotation of the users that have items; `add`, `pop`, `remove`, `clear` and `values` are the
--   methods of these names.
-- - AnalysisScheduler (services/analysis_scheduler.py): the scheduler that keeps its queued work in a
--   FairUserQueue. Each section under its lock is a function (`enqueue`, `cancel`,
--   `cancel_workspace`, `stop_dispatch`; `dispatch`, `wake_up` and `reset` are a pass of the loop
--   `_run`; `finish` is the end of `_run_one`), and AnalysisScheduler/Steps lets them run in any order.
-- - ImportScheduler (services/user_file_import_scheduler.py): the same for imports of User Files, with
--   the scopes that cancel a running import; `begin_run` and `finish` are the ends of `_run_one`.
--   ImportScheduler/History lets its sections run in any order.
-- - NodePlans (domain/workspace/node.py): the plan of a Data Block with undo and redo, at most fifty
--   plans deep.
-- - PortableNames (shared/portable_names.py): names of files and relative paths that are safe on every
--   system. Unicode's NFC, casefold and strip are a parameter, `Canon`.
-- - Background (domain/background.py): states, progress and failures of background work.
-- - UserFileImport (domain/user_file_import.py): the immutable record of an import, its validators,
--   and the five calls that replace it by a later one.
-- - Quota (services/quota.py): reservations of durable growth against the quota of a user. What a call
--   reads (the policy, the bytes in use, the allocation unit) is its argument `Reading`. The section of
--   a method under the gate of the user (`recheck_section`, `release_section`) is a step of its own, as
--   is the flag that a release sets afterwards (`mark_released`).
-- - StorageAdmission (services/storage_admission.py): a quota reservation and headroom on the shared
--   disk; it calls Quota. The parts of `acquire` and of `release`, between which other calls run, are
--   functions of their own. Two releases of one reservation that overlap give its bytes back twice, so
--   its histories have a condition that excludes them.
-- - EventHub (services/events.py, domain/events.py): bounded streams of refresh events, a number for
--   each event, and the overflow of a slow reader.
-- - Derivation, Provenance (domain/workspace/provenance.py): the operations that derive a Data Block,
--   and lineages of them with their validators, composition, live references and description.
-- - WorkspaceGraph (domain/workspace/graph.py): the Data Blocks of a `Workspace` with their lineage;
--   it calls Provenance to rewrite the lineage of the children of a removed Data Block.
-- - AnalysisRequest, AnalysisRecord (domain/workspace/analysis.py): the requests of Analyses with their
--   validators, and the durable record of an Analysis. Unicode's casefold and the text of an identifier
--   are parameters. AnalysisRecord/Phases is the abstract machine that the record implements.
-- - WorkspaceAnalyses (domain/workspace/graph.py, domain/workspace/tab.py): the Tabs of a `Workspace`
--   and the Analyses that they own. It keeps the records of AnalysisRecord.
-- - LifecycleGates (services/workspace_lifecycle.py): the gate of each user that `_user_gate` registers
--   and takes out, with its lock; the sections of calls under way run in any order, and a call may be
--   cancelled while it waits for the lock or while it waits to leave (`abandon_at`).
--
-- A component with shared state is a record and its methods are functions on it; a method that raises
-- gives `err` (or `none`). What runs under a lock is one step, a method is one step for each of its
-- sections, and a concurrent history is a list of steps; the theorems on histories hold for every list
-- that meets their conditions. Objects that Python shares by reference (quota
-- and storage reservations, event streams) are kept in their service under a number.
--
-- Identifiers, timestamps and byte counts are naturals: they are compared, added and subtracted, and
-- where the source clamps a difference at 0 the subtraction of naturals does the same. Python's
-- integers are unbounded, so nothing wraps. Loops are structural recursion on a list, but for
-- the one of `analysis_descendants`, whose fuel is 2 ^ n for n Analyses: a record weighs more than all
-- its descendants together, so it ends before. A float is a multiple of 2 ^ -1074, with its sign.
--
-- Not modelled: the HTTP interface (api), the worker processes and the analyses that they compute
-- (workers, analysis), the table engine behind the Data Blocks, the database and the file system, the
-- services that run and publish Analyses, and sessions. The scan of a directory tree that measures
-- usage is I/O behind Quota.
pub mod AnalysisRecord
pub mod AnalysisRequest
pub mod AnalysisScheduler
pub mod Background
pub mod Base
pub mod Derivation
pub mod EventHub
pub mod FairQueue
pub mod ImportScheduler
pub mod LifecycleGates
pub mod NodePlans
pub mod PortableNames
pub mod Provenance
pub mod Quota
pub mod StorageAdmission
pub mod Text
pub mod UserFileImport
pub mod WorkspaceAnalyses
pub mod WorkspaceGraph
