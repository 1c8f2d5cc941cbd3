-- ===== src/Lib.antt =====
-- Long Haul: leases of fleet vessels, bounded work contracts, and flash delivery.
--
-- The program. A fleet controller (src/long_haul/ephemeral.py) admits vessels with leases, starts
-- work attempts on them, and records their loss, in an append-only event log
-- (src/long_haul/events/store.py) from which the fleet's state is replayed. A unit of work has a
-- contract (src/long_haul/work/contracts.py) that says what it may touch and what counts as done.
-- A read-only evaluator (src/long_haul/work/evaluator.py) turns checks of a candidate into an
-- evidence packet and a disposition; a progress monitor (src/long_haul/work/progress.py) watches
-- the steps of an attempt; a checkpoint (src/long_haul/work/checkpoints.py) is derived from the
-- same event log and rendered as a digest. A flash delivery (src/long_haul/work/flash_delivery.py)
-- hands out one job under a lease and takes its result; its durable version
-- (src/long_haul/work/flash_storage.py) keeps each job in a blob that several processes change by
-- conditional writes, and hands out references through a queue. Choices go through a decision record
-- (src/long_haul/decisions/engine.py). The scheduler (src/long_haul/scheduler/core.py) proposes
-- plans over the vessels of the fleet, rejects those that break a hard constraint or that no
-- validation of the runtime supports, and chooses by the benchmark evidence for the others.
--
-- The files.
--   Prelude         texts as lists of code points, lists, Python's str methods, dictionaries as
--                   association lists, and exceptions as a result type.
--   Work.Scope      _validate_scope and permits_path of src/long_haul/work/contracts.py.
--   Work.Contracts  the contract's records and validators; Work.Evaluation: evaluate_work.
--   Work.Evaluator  src/long_haul/work/evaluator.py.
--   Work.Progress   src/long_haul/work/progress.py.
--   Work.Checkpoints, Work.Checkpoints.Digest  src/long_haul/work/checkpoints.py.
--   Flash.Fixture   src/long_haul/work/flash_delivery.py; Flash.Clock: the readings of its clock.
--   Flash.Http      src/long_haul/work/flash_http.py: the WSGI routes over the fixture.
--   Flash.Storage   src/long_haul/work/flash_storage.py; its children have the methods, on
--                   Flash.Exec's actions. Flash.Storage.Protocol is the abstract view: what the
--                   processes that share the container may make of a job's state.
--   Fleet.Lease, Fleet.Controller  src/long_haul/ephemeral.py: the leases, and every method of
--                   FleetLeaseController as a function from the log's text to an outcome and the text.
--                   Fleet.Controller also has EventStore, the file that is written and read by
--                   lines; Fleet.Controller.Log: what is read back of what was written.
--   Fleet.Models    the parts of src/long_haul/models.py that vessels consist of.
--   Fleet.Events, Fleet.Replay  src/long_haul/events/store.py: the events, each handler, and
--                   materialize. Fleet.Controller.Relation is the abstract view of the log: a step
--                   relation on fleet states.
--   Decisions       src/long_haul/decisions/engine.py.
--   Runtime         the runtime identities and validations of src/long_haul/runtime.py.
--   Benchmarks      src/long_haul/benchmarks/store.py: the observations and the queries.
--   Scheduler       the requirements, generated plans and placement constraints of
--                   src/long_haul/scheduler/core.py; Scheduler.Selection: the evidence for a plan,
--                   its evaluation, the ranking and the choice.
--   Requirements    the inventory of tools/requirements.py.
--   Report          the layer results of src/long_haul/validation.py.
-- The modules below a component hold its theorems, and its Examples the tests and the theorems at
-- concrete inputs.
--
-- Conventions. A function keeps the name that it has in Python, without its leading underscore. A
-- method returns its outcome with the new state; an exception is a value of Fault, and messages are
-- left out. Times are whole clock ticks and a datetime says whether it is aware. Dictionaries keep
-- their insertion order. Every loop is a recursion on the list it walks, or on the limit that the
-- source gives it, so nothing uses fuel. Scheduler.select is select_plan.
--
-- Parameters: pydantic's conversion of one event to JSON and back (Codec), of which the theorems
-- ask that an event that is appended is one line that reads back; the clock, the id factory, the
-- verifier and the JSON codec of a flash delivery, of which the verifier may raise; the storage
-- service, the notifier and the hash of the durable one, whose documented behaviour is
-- Flash.Storage.Protocol.IsDocumented; json.loads, json.dumps, the views of a JSON value and the
-- body's stream of the HTTP adapter; the inspected target of the evaluator; json.dumps and SHA-256
-- of the progress monitor; the metrics of the scheduler with their order, and the JSON texts of its
-- records; the file system, the parsers and the digest of the requirements tool.
--
-- Not modelled: the benchmark matrix, its import and its scheduler, and the reference runs; adapters,
-- discovery, gateways, scripts and the command line, which are mostly input and output; the
-- conversion of the models nested in an event's payload, which is the identity here; what a raising
-- clock or id factory of a flash delivery leaves behind; rounding of floats.
pub mod Prelude
pub mod Work
pub mod Flash
pub mod Fleet
pub mod Decisions
pub mod Runtime
pub mod Benchmarks
pub mod Scheduler
pub mod Requirements
pub mod Report
