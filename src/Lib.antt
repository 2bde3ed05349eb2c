-- ===== src/Lib.antt =====
-- AegisForge's execution kernel and its scheduler (Python, under shared/ and
-- orchestrator/): what an agent may do, with which authority,
-- and how its execution attempts are recorded, leased, and recovered when an executor is lost. Every
-- part keeps its state in SQLite tables; a worker, a coordinator and a governance tool may each have
-- a connection.
--
-- How the parts interact: capability_policy.py judges an intent by its role and action;
-- agent_authority.py keeps each agent's earned authority (authority_state.py, by the rules of
-- authority_transition.py) with an epoch; effective_capability.py narrows the policy's answer by that
-- authority. An intent that passes gets a signed grant, whose one use capability_grant_store.py
-- guards. execution_gate.py verifies the grant against the agent's signature and present authority,
-- consumes it, and calls an executor, whose implementation executor_identity.py pins, as an attempt of
-- execution_attempt.py, under an idempotency key. An attempt that is RUNNING with its lease over is reviewed by
-- execution_recovery.py, and a review that finds it safe lets one worker claim the retry,
-- for which execution_retry_authorizer.py issues a fresh grant;
-- recovery_evidence.py keeps a hash chain of what was found. Apart from these, task_graph.py of the
-- orchestrator orders tasks by their dependencies and says which may start under its budgets.
--
-- Which file models which part:
--   Prelude        texts, tables (select, update, changes: the SQL statements), results and actions
--   Attempt        shared/execution_attempt.py: State the states and transitions, Defs the store's
--                  get, find_*, create, transition, Leases expire_leases and find_stale_running
--   Authority      shared/authority_transition.py and the machine of shared/authority_state.py in
--                  Machine; its store and shared/agent_authority.py in Registry (suspend and
--                  governance_reset of the registry are suspend_agent and reset_agent)
--   Capability     shared/capability_policy.py in Policy, shared/effective_capability.py in Effective
--   Grant          shared/capability_grant_store.py in Store (register is register_grant)
--   Gate           shared/execution_gate.py in Execute (authorize, execute; _consume_nonce is
--                  insert_consumption), its checks in Admission, its tables and receipts in World;
--                  shared/capability_grant.py in Binding and Issue; sign of
--                  capability_signing.py in Issue; verify of capability_signing.py,
--                  signed_action_intent.py and agent_identity_signing.py in Signatures, their
--                  artifacts in Artifacts; shared/outcome_contract.py in Contract, over Json
--                  shared/execution_retry_authorizer.py in Retry (authorize is authorize_retry)
--   Scheduler      orchestrator/task_graph.py: TaskNode and TaskGraph in Graph (__init__ is build,
--                  _validate_acyclic search_order), plan and retry_allowed in Plan
--   Recovery       shared/execution_recovery.py: open, resolve and resolve_verified in Reviews,
--                  claim_retry in Claims, update_retry_operation in Updates; Blank is str.strip
--   Executor       shared/executor_identity.py in Identity (register is register_identity)
--   Evidence       shared/recovery_evidence.py in Chain (append, events, get_event, verify)
--                  and Artifact (export_artifact, verify_artifact)
-- The other files of each part hold its proofs, and its Examples the tests.
--
-- How the code is read: a table is the list of its rows in the order of insertion; a method is a
-- function from the table to its result or error and the new table, where a rollback gives the old
-- one back. A UNIQUE column and a PRIMARY KEY are tests of the INSERT. An UPDATE with a guard and the
-- test of its row count are one step, separate from the SELECT before it, so that a history may hold
-- the write of a connection that read long ago; BEGIN IMMEDIATE makes one step of a transaction.
-- A method that reads and then writes without either has its late write as a further step of the
-- histories (inserted, late, marked_late, saved_late), and a theorem that needs such a write to be in
-- time says so.
-- Times are microseconds in UTC, in whose order the ISO texts of the columns sort; a uuid is an
-- argument (fresh, token); None and NULL are none. Columns that hold an enumeration are typed by it,
-- so the errors for a column with a foreign text do not occur. Loops are structural, but for
-- the depth-first search of Scheduler, which runs on fuel, one more than the number of nodes: each
-- nested call visits another node, so that is enough, as proved there; Python's limit on nested calls
-- is not modelled.
-- What the gate takes from libraries (Ed25519, SHA-256, base64, JSON, ISO timestamps) is the record
-- Library, of which nothing is assumed but in the theorem of RoundTrip: that a time that is written
-- is read back, and that a signature made by a key is one of that key. execute_among is execute with what
-- others write between its stages; the three writes of a claim (grant, nonce, RUNNING) and the start of
-- the executor are one stage, and the histories of Soundness interleave the stages of many calls with
-- steps of other connections. execute_all_or_nothing and Success are of a call alone. The executor is what the call of it returns or raises, and each call
-- is recorded in the world's list ran, which the code does not keep.
-- SHA-256 over canonical JSON is a parameter of Evidence; that it is injective and never the genesis
-- hash is a hypothesis, and only of the theorem that needs it.
--
-- Not modelled: type tests of arguments (Python's isinstance), to_dict, schema migration, and a crash
-- between two commits of one method; and the parts around this core: key files,
-- the decoding of signed artifacts, a gate without a database, the coordinator, attestations, cases,
-- the task queue, the rest of the orchestrator and the agents.
pub mod Prelude
pub mod Attempt
pub mod Authority
pub mod Capability
pub mod Recovery
pub mod Gate
pub mod Scheduler
pub mod Grant
pub mod Evidence
pub mod Executor
