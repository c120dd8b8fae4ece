-- ===== src/Lib.antt =====
-- Verification of repotraverse, the element history analyser for C and C++.
--
-- The program captures snapshots of the elements of a translation unit at two revisions, compares
-- them, and reports how each element went on. Texts that enter it are decoded and checked first.
--
-- Encoding models src/encoding.cpp: `valid_utf8`, `utf8_lossy`, `decode_utf16` and `decode_text`, on
-- lists of bytes. A loop over `offset` is a recursion on the bytes from there on; its fuel is the
-- length of the text, which is enough because every round drops a byte at least.
-- Ir and Lineage model include/history/ir.hpp, include/history/lineage.hpp and src/lineage.cpp.
-- Lineage.Match holds how one element is compared and matched, Lineage.Trace the two loops that make
-- the facts, and Lineage.Relate the relation candidates and `trace_transition` itself. The digest
-- `stable_hash` and the JSON text of a list of identities are arguments.
-- HistoryPlan models src/history_plan.cpp: HistoryPlan.Records what Git writes as a log and how it is
-- read, HistoryPlan.Paths the classes of paths, HistoryPlan.Units how the commits become integration
-- units with their totals. The net diff of Git is an argument that may fail, the facts about pull
-- requests are functions of a commit, and the units that are written are a list. The fuel of the
-- loop over tokens is their number, which is enough because every round takes one at least.
--
-- Coordination models the claims of src/git_coordination.cpp and the table observed_claims of
-- src/catalog.cpp: Coordination.Claims the records and refs, Coordination.Sync how claims are read and
-- pruned, Coordination.Leases the operations on a lease, and Coordination.Run the calls of several
-- producers on one remote. Git is a record of functions with named laws; a call is one function of
-- the store and of what it fetched, so that other producers may act between its fetch and its push.
--
-- Catalog models the queue of src/catalog.cpp, the tables work_items, work_dependencies,
-- work_invocations, runner_lease, facts and published_tasks, as lists of rows: Catalog.Tables
-- the rows and what statements have in common, Catalog.Work what adds, ends and cancels work,
-- Catalog.Runner the lease of the one runner and how it takes work, Catalog.Facts the cache of
-- facts and the tasks that are published, Catalog.Steps the calls one after another. A
-- transaction is one function, and `none` an exception that rolls it back. The clock, the random
-- token of a launch and the digests are arguments. Catalog.WellFormed holds the constraints of
-- the tables, Catalog.Changes what a call may do to one row, Catalog.Life what that means over
-- many calls, Catalog.Next the order of the queue, Catalog.Launch the start of a runner,
-- Catalog.Retries failures, Catalog.Settled the end of an invocation. Catalog.Eviction is about
-- `store_fact`; the fuel of its loop is the number of facts and one more, which is enough
-- because every round removes a fact or is the last. Numbers of attempts and times stay below
-- the bounds of their SQL integers. Ir.Manifest models `validate_tu_manifest` of src/ir.cpp; the
-- JSON text of a manifest's identity is a function of what it is made of. Worker models
-- `run_task` of src/worker.cpp on the tables of Catalog, and what `run_runner` of app/main.cpp
-- does with its answer: paths, workspaces, the process of the extractor, and the coordinator's
-- answers are a record of functions that may fail; what the coordinator writes into the catalog
-- comes with its answer, and no other program writes there meanwhile.
-- Progressive models the patterns of paths and the labels of src/progressive.cpp,
-- and BuildImport src/build_import.cpp: the words of a response file, in BuildImport.Normalize their
-- expansion and the arguments of a command that are kept; a path is a text, and what the platform
-- says of it a function.
--
-- Not modelled: the rest of the SQLite catalog, the processes and Git commands, HTTP, telemetry, the
-- extractor that calls Clang, the vendored libraries, and JSON conversion, which are input and output or code
-- of others.
pub mod Prelude
pub mod Encoding
pub mod Ir
pub mod Lineage
pub mod HistoryPlan
pub mod Coordination
pub mod Catalog
pub mod Progressive
pub mod BuildImport
pub mod Worker
