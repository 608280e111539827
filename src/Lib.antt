-- ===== src/Lib.antt =====
-- A verification library for the rotation of leaked and expiring credentials.
--
-- The program. A rotation run replaces one credential in twelve stages. Its state machine
-- (server/core/state/machine.py) decides each transition of a run, with revisions, leases and fencing
-- tokens; the stage gate (packages/policy) decides whether a proof has the checks that a stage
-- requires; the workflow (server/core/workflow) turns commands into transactions of the run
-- repository (server/core/storage/firestore.py), which records steps and events, holds one lock for
-- each credential and answers a repeated command from its record. The events of a run leave through
-- the outbox (server/core/storage/outbox.py), which the publisher (server/core/events/publish.py)
-- drains. Beside the runs stand the approvals of protected actions, the hash chain of audit events and
-- the generations of a credential, each with its own transactions. The broker (server/broker) lets an
-- agent use a tool: it checks the signed capability that the coordinator gave out against the request
-- and the stored run, asks for an approval where the tool needs one, and keeps a ledger of attempts.
--
-- The files.
--   Prelude, Errors, Store: shared tests, lists and results; the exceptions as values; a collection of
--     documents as a function of identifiers, with the laws of a read after a write.
--   Contracts: the data of packages/contracts and the model validators. `is_valid_run` is the
--     validator of `RotationRun`, and `IsValid` the facts that it decides.
--   Policy: REQUIRED_CHECKS, GatePolicy and ControlDefinition.validate_coverage.
--   Machine: RotationMachine, one function for each method (`start`, `renew`, `complete`, ...) and
--     `apply` for a call of any of them. `Effect` is the step relation that specifies them.
--   Runs: FirestoreRunRepository.create and mutate over a record of collections. A transaction is a
--     function from the collections to a result with the new collections; one that raises writes
--     nothing.
--   Workflow: RunWorkflow.create and its ten commands. `History` is a sequence of them. Workflow/Reaper
--     is reap_expired, the pass over runs whose lease has expired.
--   Outbox: _claim_one, mark_published, mark_dead_letter and mark_failed, and the retry delay of
--     server/core/events/publish.py. Outbox/Queue is claim, the query and the transactions over
--     what it streams.
--   Publisher: EventPublisher.drain over a record of the operations of an outbox repository.
--     Publisher/Firestore fills the record with the operations of Outbox.
--   Approvals: server/core/storage/approval.py, and the decision of server/core/approval/service.py.
--   Audit: server/core/storage/audit.py and server/core/audit/chain.py.
--   Generations: server/core/storage/generation.py and server/core/generation/service.py.
--   Broker: Broker/Capability is server/broker/capability.py, Broker/Request is
--     server/broker/validate.py with the authorisation in server/broker/service.py (`admit`), and
--     Broker/Attempts is server/broker/storage.py. `AttemptHistory` is a sequence of its transactions.
--     Broker/Connectors is the registry of connectors, and Broker/Execute the run of a tool
--     (BrokerService.execute), with the writes of other workers between its transactions.
--   Examples: concrete inputs on which the theorems are applied.
--
-- Numbers and bounds. Revisions, tokens, instants and durations are natural numbers without a bound,
-- as Python's integers are. An instant is compared and extended; where the code takes its timestamp,
-- it counts seconds. The functions recurse on lists and need no fuel, except the loop of a drain: it
-- has the number of events that the publisher may claim, and one, as fuel, which is enough because
-- every round but the last claims an event.
--
-- Concurrency. Firestore runs each transaction as if alone, so an interleaving of workers is a
-- sequence of transactions; the histories range over all of them. The deliveries of one batch, which
-- the publisher starts together, are taken one after the other.
--
-- Parameters. SHA-256 and the JSON encoder are libraries, so the digests of commands, of control
-- definitions, of audit events and of requests are arguments. So are identifiers and clock readings,
-- the documents that a collection group holds, the answers of the event transport, the encoding and
-- the signature of a capability, the host name of an address, and what a connector answers to the
-- broker. The query of the outbox filters, orders and limits those documents in the model.
--
-- Not modelled: the lengths and patterns of single text fields, queries that only read, the request of
-- an approval, the delivery of audit events, what lies behind a connector with the transfer of a
-- secret and the writing of evidence, and the services around the core (coordinator, ingestion,
-- verifier, connectors, agents, browser, notifications, HTTP routes, client and infrastructure).
pub mod Prelude
pub mod Contracts
pub mod Errors
pub mod Store
pub mod Policy
pub mod Machine
pub mod Runs
pub mod Workflow
pub mod Outbox
pub mod Publisher
pub mod Approvals
pub mod Audit
pub mod Generations
pub mod Broker
pub mod Examples
