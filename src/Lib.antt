-- ===== src/Lib.antt =====
-- The payment-service and the instruction-service of Policy Pilot, verified, with the sequence-service
-- that numbers their records and events, and the schedule of the indexer's dead-letter queue.
--
-- A payment lives as a chain of document versions in MongoDB. `PaymentService`
-- (payment-service/src/ps/service.py) reads the open version, checks the status and the backing
-- instruction (read over HTTP from the instruction-service), asks the policy engine through the
-- authorization-service, and writes the next version together with a security event in one
-- transaction. Every operation of it that changes state is modelled whole.
--
-- A settlement instruction lives in the same way: `InstructionService`
-- (instruction-service/src/inst/service.py) drafts it, takes it through submission, approval, rejection,
-- suspension and cancellation, and lets a payment use it (`use`) and give it back (`release_use`). Both
-- services keep their chains and write their evidence by code that is alike, which is modelled once and
-- taken as an instance by each; payment-service sees the other only through HTTP.
--
-- Files and what they model:
--   Prelude, Prelude/*      lists, text, decimal print, and `Exec`: a coroutine is a function from a
--                           store to a result or an error with the store left behind, so that what was
--                           written before a raise stays written
--   Mongo                   a collection as an interface (`Collection`), with the documented behaviour of
--                           the driver's calls as named hypotheses (`IsLawful`); a call may fail
--   Mongo/Memory            a list that meets them
--   Versioned               what ps/repository.py and inst/repository.py have in common, over an interface
--                           (`Rows`) to the documents of one of them; Chain, Writes,
--                           Inserts, Versions, Progress and Reading hold the version chains
--   Ledger                  what ps/service.py and inst/service.py have in common: the store, the
--                           transaction, and the save of a version with its security event; Keeping,
--                           Failsafe, Saving, Atomic and Validity are the lemmas
--   Payment/Model           ps/models/enums.py, api.py, payment.py
--   Payment/Errors          the exceptions of the service
--   Payment/Authorization   ps/authorization.py
--   Payment/Iso             the ISO texts of stored times, which ps/storage.py writes and reads
--   Payment/Storage, Storage/Keys
--                           ps/storage.py: documents and their keys
--   Payment/Repository      ps/repository.py, an instance of Versioned; Versions has its chains
--   Payment/Moment, Instruction
--                           `datetime` values read from ISO text, and the instruction's JSON
--   Payment/Events          ps/models/security_event.py
--   Payment/Platform        what is called and not implemented here: other services, the clock, the
--                           commit of a transaction; and the coroutines over it
--   Payment/Client          ps/instruction_client.py
--   Payment/Guards, Guards/Approval, Guards/Approval/Payable
--                           the checks of the backing instruction in ps/service.py
--   Payment/Access, Access/Rules
--                           who may read a payment
--   Payment/Service         the helpers of `PaymentService`; one child module per operation (Create,
--                           Update, Submit, Approve, Reject, Cancel, Read); Saving, Authorizing and Steps
--                           are the lemmas about the helpers, Exclusivity and Releasing about SINGLE_USE
--                           instructions
--   Payment/Lifecycle       the step relation of statuses, and what each operation has done when it
--                           returns (Operations, Submitting, Approving, Creating), on terminal statuses
--                           (Terminal), and with a stale read (Stale)
--   Payment/Validity        every operation as a transformer of the version chains, ended by a return or
--                           by a raise, and sequences of calls
--   Sequence                sequence-service/src/seq: the counters from which payment and event
--                           identifiers come; Keys and Unique on the identifiers, Tests
--   Dlq, Dlq/Schedule       ssi-indexer/src/etl/dlq/store.py: the scheduler's calls at one entry of the
--                           dead-letter queue, and its attempts, locks and backoff; Tests
--   Instruction/Route, Route/Rules
--                           the parties, accounts and agents of inst/models/instruction.py, and the
--                           validator of a route
--   Instruction/Model       inst/models/enums.py, api.py, and the instruction of instruction.py
--   Instruction/Evidence    inst/authorization.py and inst/models/security_event.py
--   Instruction/Storage     inst/storage.py
--   Instruction/Repository  inst/repository.py, an instance of Versioned
--   Instruction/Platform    what is called and not implemented here, and inst/evaluate_tokens.py
--   Instruction/Service     the helpers of `InstructionService`; Drafting (create, update, cancel), Review
--                           (submit, approve, reject), Suspension (suspend, reactivate), Use (use,
--                           release_use) and Read (get, list, list_versions)
--   Instruction/Machine     the abstract machine: a status, a type, a count of uses and the payment that
--                           holds the instruction
--   Instruction/Saving, Served, Served/*
--                           what one operation has done when it returns
--   Instruction/Calls       calls one after another; Keeping, Refinement, Outcomes, Replay and Using
--                           on them
--   Instruction/Viewing     what a listing shows
--   Instruction/Tests       a small platform, runs on it, and the theorems at these inputs
--   Payment/Tests           a small platform, runs on it, and the theorems at these inputs
--
-- How the source is read: identifiers that the program builds and takes apart are lists of code
-- points, other strings are native. A time is a number of microseconds in UTC. A message that only
-- formats values is kept by its fixed words, and logging, metrics and tracing are left out. Amounts are
-- copied and not computed with. Pydantic's dump and validation of a payload are taken as exact. A commit
-- that fails is taken as a rollback. The
-- stored collections change only through the calls of the request at hand; a stale read is modelled by
-- giving an operation's body a version other than the stored one.
--
-- The loops of the source are over lists. Only the print of a number in decimal is on fuel: it is given
-- the number plus one, and each digit uses up one.
--
-- Not modelled: the HTTP routes and models of the services, their sign-in and configuration, their
-- aggregation pipelines (`summarize_current`), `eligible_approvers`, `summarize` of the
-- instruction-service, the rest of the indexer, and the other services of the repository.
pub mod Prelude
pub mod Mongo
pub mod Versioned
pub mod Ledger
pub mod Payment
pub mod Instruction
pub mod Sequence
pub mod Dlq
