-- ===== src/Lib.antt =====
-- Errander-AI: an agent that keeps fleets of Linux machines in order under human approval
-- (errander/ is its Python package). This library models the parts that decide whether and how
-- often something is executed, and proves what they promise.
--
-- - Common: the shared names, Boolean tests, lists, and database tables as lists of rows with
--   UPDATE, DELETE, SELECT and COUNT (Common/Table), integers (Common/Int) and the methods of
--   Python's str that the parsers use (Common/Text).
-- - Approval, Approval/Store, Approval/Wait: errander/safety/approval_store.py. One function for
--   each method of ApprovalRequestStore, which takes the store and the instants that it reads
--   from the clock and returns the new store; Approval/Wait is the loop of wait_for_decision,
--   where a round lists the writes of the other tasks between two awaits. Approval/Store/Run puts
--   the writes in sequence.
-- - Proposals: errander/models/proposals.py, the validators and the dedup key. Proposals/Store:
--   errander/safety/proposal_store.py with the partial unique index of migration 16 in
--   errander/safety/migrations.py. Its reads are in Proposals/Store/Reads, and sequences of its
--   writes in Proposals/Store/Run.
-- - Batch: the batch graph of errander/agent/graph.py. Batch/State: BatchGraphState as far as it
--   is read, and the risk tiers. Batch/Front: the nodes before the approval, with the replay of a
--   deferred batch. Batch/Gate: approval_gate_node on the model of the approval store, where
--   Meanwhile lists the writes of the other tasks between its awaits; Batch/Gate/Routes: the hash
--   check and the routes to the waves. Batch/Dispatch: the actions that a VM gets. Batch/Waves:
--   the partition, the canary, and the cycle of dispatch and health check.
-- - Window: errander/scheduling/windows.py, the window test and the search for the next opening,
--   on the wall clock of the window's timezone. A Zone has the conversions between instants and
--   the wall clock, which are Python's and parameters.
-- - Deferred: errander/safety/deferred.py, the table of approved batches that wait for their
--   window. Deferred/Ready says what get_pending returns.
-- - Lease: errander/safety/agent_lease.py, the lease of the one agent process, with what other
--   transactions commit between the statements of an acquire. Lock: errander/safety/locking.py,
--   the lock directory of FileLocker, where a file holds a parsed lock, a corrupt text, or
--   nothing yet. A Moment is a point inside acquire at which other processes come in: before the
--   file is made or overwritten, and between its making and the writing.
-- - Vm: errander/agent/vm_graph.py, the nodes and routes between the lock of a VM and its
--   release. Vm/Validate: errander/safety/validators.py, errander/config/policies.py and the
--   cleanup whitelist of errander/agent/subgraphs/disk_cleanup.py. run_vm has the path on which a
--   node raises, where release_lock is not reached.
-- - Recovery: the jobs of errander/main.py over these stores. Recovery itself has _window_opener
--   and _approval_reconciler, Recovery/Proposed has _proposal_reconciler with the locks of Lock;
--   Recovery/Jobs and Recovery/Proposed/Passes put them in sequence with the other tasks.
-- - Cleanup: errander/agent/subgraphs/disk_cleanup.py and the choice of SandboxExecutor.execute
--   in errander/execution/sandbox.py. A VM is a function from the commands before it and the next
--   one to a reply.
-- - Detector: errander/agent/proposal_detector.py with the records of errander/models/reports.py
--   that it reads, over the model of the proposal store. Detector/Filing stores the proposals.
-- - Hygiene: errander/models/docker_hygiene.py. Hygiene/Rules has the classification of
--   errander/agent/subgraphs/docker_hygiene.py, Hygiene/Assess and Hygiene/Removal read what the
--   two wrappers print, Hygiene/Graph is the sub-graph, Hygiene/Store and Hygiene/Wait are
--   errander/safety/hygiene_store.py and the conversion in errander/safety/hygiene_approval.py,
--   Hygiene/Form is the handler of errander/web/ui.py that decides a request, and Hygiene/Run
--   puts them together as _run_docker_hygiene of errander/agent/vm_graph.py does.
-- - Patching: errander/agent/subgraphs/patching.py with the parsers of
--   errander/execution/service_check.py and errander/execution/reboot_check.py and the test of
--   names in errander/execution/command_builder.py. Patching/Nodes and Patching/Execute: the
--   nodes, with the rollback of errander/safety/rollback.py. Patching/Graph: the routes, and the
--   start of _run_patching in errander/agent/vm_graph.py. Patching/Graph/History has what a run
--   knows of the calls that it has sent.
-- - Restart: the parser of errander/agent/subgraphs/service_restart.py and the test of unit names
--   in errander/execution/command_builder.py. Restart/Graph: the sub-graph, with the records of
--   errander/models/service_restart.py.
-- - Examples: the theorems at concrete inputs, and tests.
--
-- How the model stands to the code. A SQL statement is translated from its text: UPDATE ... WHERE
-- changes the rows that meet the clause, rowcount is their number, ON CONFLICT and the unique
-- index of a table are written out, and a statement that breaks an index fails as a whole. One
-- statement runs as one step, as in the transaction that surrounds it, and the order of the
-- statements of several tasks is an explicit list, over which the theorems range. A time is a
-- natural number of microseconds for the ISO text in UTC that is stored: the code writes and
-- compares such texts only in that form, in which their order is that of the instants. JSON
-- columns are texts; json.dumps and json.loads are parameters. Logging and metrics are left out.
-- In the batch graph the hash (json.dumps and SHA-256), the parsing of JSON and of dates, the
-- maintenance window and the health check of a VM are parameters; a threshold is a fraction num /
-- den and is compared without rounding, and a percentage is a natural number. A node's returned
-- dictionary is an update of the state record; the audit store is taken to be wired up. In the VM
-- graph what a target answers and how a sub-graph ends are parameters, and in the jobs what a
-- launched batch or sub-graph writes to the stores meanwhile is one; a job reads the clock once,
-- and what an environment's window says is given with the environment. What a VM answers in a
-- sub-graph is a function of the commands sent before and the next one, where a missing answer is
-- an exception; the commands are data, and their shell texts are left out. Python's int and
-- str.lower, fnmatch, and the hash of an assessment (sorting, json.dumps and SHA-256) are
-- parameters.
--
-- Fuel. wait_for_decision recurs on the rounds that its environment makes. The cycle of the waves
-- gets one unit of fuel for each wave, which is enough since each round moves on to the next
-- wave. The search for the next opening of a window has the eight rounds of the source, which
-- reach each weekday after the present. The cycle of a VM's actions gets one unit of fuel more
-- than the plan has actions, and each round moves on to the next action.
--
-- Not modelled: the rest of the web interface, SSH and the texts of commands, the LLM clients,
-- Slack, metrics and configuration, which are input and output; the sub-graphs of log rotation
-- and backup checks, users and permissions, and the daily probe, which are further parts of the
-- same kind; and the parts of the graphs that are not named above; the temporary file of a lock
-- that is overwritten, whose name two processes can share; and exceptions of nodes in the batch
-- graph, beyond those that are named.
pub mod Common
pub mod Approval
pub mod Proposals
pub mod Batch
pub mod Window
pub mod Hygiene
pub mod Patching
pub mod Restart
pub mod Lease
pub mod Lock
pub mod Vm
pub mod Deferred
pub mod Recovery
pub mod Cleanup
pub mod Detector
mod Examples
