-- ===== src/Lib.antt =====
-- Verification library of agent-runtime-ops: the root-action core, by which typed, sealed jobs
-- are submitted, claimed at most once, executed and answered by a receipt.
--
-- The parts, all of opsctl/agent_runtime_ops/root_actions/, and the modules that model them:
--
--   state.py           RootAction/State: `JobRecord`, `TransitionEvent`, `apply_transition` with one
--                      clause of `dispatch` for each kind of event. State/Spec is the diagram
--                      that the code implements, State/Traces what follows for sequences of events.
--   registry.py        RootAction/Registry: the parameter rules and the fixed operations.
--   contracts.py       RootAction/Contracts: from manifest bytes to a `SealedJob`.
--   observation.py     RootAction/Observation: the reserved public facts of a receipt.
--   receipts.py        RootAction/Receipts: from receipt bytes to a `ReceiptArtifact`.
--   admission.py, storage.py   RootAction/Admission: policies, limits, summaries, ledger entries.
--   local_fixture.py   RootAction/Store and its children: the store, a function for each method.
--                      A method is checks, a `Result`, and then writes; it returns its result
--                      or exception beside the store that it leaves. Store/Commands gathers
--                      the methods that write; a run of commands is any interleaving of
--                      threads, because each method holds the lock of the store.
--   authorization.py   RootAction/Authorization: ceremonies, credentials and their checks.
--   posix_store.py     RootAction/Posix and its children: the SQLite store. A table is a list of
--                      rows, a constraint is a test of `execute_insert`, a statement is an
--                      `Action` on the `Database`, and `transaction` gives back the database it
--                      found if its body raises. Posix/Commands gathers the methods that write;
--                      Posix/Statements is what a relation on databases is proved of, and
--                      Posix/Methods takes it to every method and every run of methods.
--   projection.py      RootAction/Projection: `history_projection`, the view of a ledger.
--   submission.py      RootAction/Submission: who may submit and when, and the frames.
--   execution.py       RootAction/Execution: the registries of execution policies and handlers.
--   broker.py          RootAction/Broker: `submit`, from the manifest to the record whose status
--                      it shows; the callable `dispatch` is a parameter that may do anything.
--
-- How they interact: the broker lets a submission in, seals its job in the store and dispatches it
-- if its operation and its lineage allow it; the store seals a manifest through contracts.py and
-- registry.py, moves a job's record through state.py, appends an entry to its ledger for each
-- move, and admits receipts that receipts.py has sealed for a job in a final or unknown state.
--
-- Text is compared by code points; the regular expressions are functions on code points (Text,
-- Time). Numbers are natural numbers where the source checks that they are not negative. An
-- exception is its class, without the message. `json`, `hashlib`, `unicodedata`,
-- `datetime.strptime` and `strftime` are parameters (`Library`, `Datetime`) with the documented
-- behaviour that the proofs rely on; Tests/Fixture gives them concrete values. All recursion is
-- structural, so no fuel is used.
--
-- Not modelled: texts with unpaired surrogates, the `OverflowError` of a time window beyond the
-- range of `datetime` in the in-memory store (in the SQLite store it is the error of a cutoff
-- before the first year), the `RecursionError` of very deeply nested JSON, the type tests that
-- typing makes true, integers beyond the range of SQLite, the opening of the database with its
-- paths, permissions and schema, the verification of WebAuthn signatures, the projections for
-- display and their publication by the broker, other threads between the read and the sealing of
-- one submission (the retry after a conflict is translated, and one submission alone never takes
-- it); the authorization service, the worker, the sockets and the rest of the repository, which
-- the manifest lists part by part.
pub mod Prelude
pub mod Text
pub mod Time
pub mod RootAction
