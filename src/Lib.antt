-- ===== src/Lib.antt =====
-- A model of the stores and workers of the ShelfWise backend, with the theorems that make them
-- correct. The paths below are from the root of the repository.
--
-- An event reaches the backend through a provisioned edge device or a connector, is published on
-- the event bus under its tenant's stream, and is consumed by a cascade worker. The worker
-- journals its steps, because an event may be delivered again, and stores the decision that its
-- handler proposes; the handler of the application is the cascade dispatcher. A manager, who sees
-- the decisions of the own tenant only, approves or rejects the decision in the decision store,
-- and an approval becomes a write-back task. Shipments are followed in the ledger of open orders,
-- and shortages are covered by a sourcing plan. A request reaches its route through guards, which
-- admit a session by its signed token. Observations of a shop's properties are projected into a
-- digital twin. Scheduled work runs as validated plans, whose steps are journaled too. What a
-- language model is asked is held to a budget by the compaction of turns and by context receipts.
-- Every record carries a data domain, which the provenance checks keep on its side of a trust
-- boundary.
--
-- Runtime.Provenance is src/shelfwise_runtime/provenance.py: DataDomain, normalize_domain and
-- require_training_domain, with exceptions as values.
-- Edge.Registry is InMemoryEdgeDeviceRegistry of src/shelfwise_edge/registry.py: the devices and
-- the batch claims as two dictionaries; each method is the function of its name, which returns
-- what the method returns and the registry after it. Edge.Registry.Postgres is
-- PostgresEdgeDeviceRegistry; the encryption of secrets is any pair of functions.
-- Inventory is InMemoryInventoryPositionStore of src/shelfwise_inventory/store.py:
-- Inventory.Positions is _position and _key, Inventory.Projection turns an event into a
-- projection, Inventory.Application applies that to the positions, and Inventory.Ledger is the
-- store with its receipts. An event is given by the fields that the projection reads, its quantity
-- as the integer that _integral_quantity finds, if any.
-- Contracts.Events is the vocabulary of src/shelfwise_contracts/__init__.py and
-- Contracts.Events.Construction its class Event, with its checks (`event`), parse_wire and
-- to_dict; Contracts.Json is JSON and deepcopy_json. Times and their texts are parameters
-- (`Clock`).
-- Dispatch is src/shelfwise_backend/cascade_dispatcher.py: run_type follows _run, and the cascades
-- are functions of the event and of the source of its facts. Writeback is TaskWriteBackSink of
-- src/shelfwise_connectors/writeback.py.
-- Orders is src/shelfwise_backend/open_orders.py: Orders.Shipments is _shipment_payload and
-- _order_record, Orders.Ledger is InMemoryOpenOrderStore (list is `all`, with validate_limit of
-- src/shelfwise_storage/pagination.py), and Orders.Postgres is PostgresOpenOrderStore, which
-- raises on counts over the 32 bits of its columns.
-- Sourcing is plan_stock_sourcing of src/shelfwise_decision_science/sourcing.py; the order of
-- decimals is a parameter. Context is src/shelfwise_backend/context_budget.py.
-- Bus is InMemoryEventBus of src/shelfwise_backend/event_bus.py: publish, consume_one, ack, nack,
-- reclaim_stale, list (`all`), stats and clear. Bus.Protocol is a consumer of the bus that answers
-- only messages that it holds; Bus.Accounts, Bus.Calls and Bus.Conservation follow every message
-- through it, and Bus.Tenants looks at stats.
-- Worker.Journal is InMemoryJournal and journaled of src/shelfwise_backend/worker/journal.py;
-- Worker.Journal.Postgres is PostgresJournal. A function that is journaled is any function on a
-- world beside the journal, which returns or raises.
-- Worker.Cascade is CascadeWorker.process_one of src/shelfwise_backend/worker/worker.py over the
-- in-memory bus, journal and decision store: process_message is what follows the consumption of a
-- message, handle its try block and fail its except block. Worker.Cascade.Delivery and
-- Worker.Cascade.Draining follow the messages, Worker.Cascade.Redelivery the steps. The handler
-- and the parsing of wire events are any functions.
-- Worker.Plans is src/shelfwise_backend/worker/plans.py: the registry of capabilities,
-- validate_plan and, in Worker.Plans.Runner, PlanRunner.run (run_steps is the loop of _run_bound);
-- Worker.Plans.Revalidation is fidelity_revalidation_plan of
-- src/shelfwise_backend/governed_execution.py. Worker.Compaction is compact of
-- src/shelfwise_backend/worker/compaction.py.
-- Action.Store is InMemoryDecisionStore of src/shelfwise_action/store.py and Action.Store.Postgres
-- is PostgresDecisionStore; a decision is a dictionary of values. What the database reads as a
-- time is a parameter, and an upsert with another value in a column of time raises.
-- Relations is RelationStore of src/shelfwise_decision_science/relations.py: search is the while
-- loop of paths, on fuel; `rounds` computes from the number of relations and from max_hops how
-- many rounds the loop takes at most.
-- Twin is src/shelfwise_twin: the records of models.py, Twin.Store for InMemoryTwinStore of
-- store.py and Twin.Projector for projector.py.
-- Tokens is the signed tokens of src/shelfwise_backend/tenant.py: encode_hs256_token and
-- decode_hs256_claims (decode_split is what follows the split into parts). Tokens.Accounts is
-- src/shelfwise_backend/account_tokens.py, Tokens.Sessions the contexts of tenants;
-- Tokens.Separation compares the two kinds of tokens, and Tokens.Guards has the guards of requests
-- in src/shelfwise_backend/deps.py. JSON's texts, base64 and the digests are a record of functions
-- (`Codec`); IsBase64 and IsReadBack say what is documented of them, and Tokens.Tests has
-- functions of which it holds.
-- Gateway is src/shelfwise_backend/security/gateway.py: Gateway.Spotlight cleans and fences
-- untrusted text, Gateway.Throttle is TokenBucket, with tokens and time in whole fractions in
-- place of floats; the clock does not go back.
-- Action.Access is src/shelfwise_backend/decision_access.py over that store.
-- Prelude holds the shared parts: dictionaries in Python's order of insertion, texts, stable
-- sorting, results that may be exceptions, and the interface of a table.
--
-- A lock makes each method of the in-memory stores one step, so a program is a sequence of calls;
-- TokenBucket, which has no lock, is called from the event loop alone. The clock is an argument of
-- every method that reads it. Copies of values are the values, since values of the model never
-- change. The database is a parameter: a table is a record of find, write and scan with their laws
-- (Prelude.Table), and Prelude.Table.dict_table shows that the laws can hold. Counts are natural
-- numbers; a quantity of an event or of a position that is upserted may be negative and is an
-- integer (Prelude.Ints). All loops are recursions on lists or texts, so no fuel is needed, except
-- for the digits of a message's number (Prelude.Text.show), where the number itself is fuel
-- enough, and for the search for paths (Relations).
--
-- Not modelled: the Redis and the PostgreSQL connections, the refusal of NUL characters by the
-- database, row-level security, schema creation, logging and exception messages; the HTTP
-- application, the agents, the language models, the simulators and the reports, which use these
-- components; the policies that compute with decimals or floats beside those named above.
mod Prelude
pub mod Runtime
pub mod Edge
pub mod Inventory
pub mod Bus
pub mod Worker
pub mod Action
pub mod Orders
pub mod Context
pub mod Sourcing
pub mod Contracts
pub mod Writeback
pub mod Dispatch
pub mod Relations
pub mod Twin
pub mod Tokens
pub mod Gateway
