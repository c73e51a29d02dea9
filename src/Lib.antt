-- ===== src/Lib.antt =====
-- The order flow of a P4P pilot node: how a restaurant's own node takes an order, moves it through
-- its modules (stock, payment, print, notification), and records what happened. And the registry that
-- nodes announce themselves to: which announcements it accepts, and the log of them that it exports.
--
-- The program's parts and the files that model them:
--   p4p_core/models.py, p4p_core/modules.py: events of modules and the manifests of modules, in
--     Core/Event and Core/Manifest.
--   p4p_core/flow_contracts.py: which event may follow which, in Core/Flow/Base (the contract
--     without extensions), Core/Flow/Contract (its extensions), Core/Flow/Validate (the check of a
--     next event) and Core/Flow/Chain (paths through the transitions of the contract).
--   p4p_core/http_hardening.py: the rate limiter, in Core/RateLimit. Below it, Run has runs of
--     requests, Window and Stale the buckets and their cleanup, Holds, Allows and Retry what follows.
--   pilot-node/app/pilot_node/runtime.py: the node's database and its choice of modules. Pilot/Order
--     has the orders and the rows, Pilot/Store the tables as one record and code that reads and
--     writes them and may raise, Pilot/Store/Orders the tables of orders and menu items,
--     Pilot/Store/Events the log of events, Pilot/Store/Outbox the actions that must not be done
--     twice, Pilot/Modules the enabled modules and the payment module in effect.
--   pilot-node/app/pilot_node/execution.py: Pilot/Record builds and records events, Pilot/Lanes has a
--     file for each lane (stock, cash, mock payment, external payment with the reading of its replies
--     in Pilot/Lanes/Reply, print), Pilot/Process runs the lanes behind the rows of the outbox.
--   pilot-node/app/pilot_node/print_adapters.py, print_sensors.py, print_drivers.py: Pilot/Print.
--   pilot-node/app/pilot_node/routes.py: Pilot/Operations has the requests of customers and operators
--     that create, resume, settle and update orders.
--   p4p_core/models.py, registry/models.py, registry/config.py: the registry's data, in Registry/Node,
--     Registry/Identity, Registry/Source, Registry/Curated and Registry/Store.
--   registry/validation.py: the checks of signatures, times, delegations and manifests in
--     Registry/Validation, of manifests in Validation/Manifest, of announcements and heartbeats in
--     Validation/Announcement, of an imported source in Validation/Log, Validation/Snapshot and
--     Validation/Response.
--   registry/store.py, registry/routes.py: the requests of nodes and of their owners in
--     Registry/Operations, where store_node, store_manifest and store_heartbeat are the methods
--     announce, store_manifest and heartbeat of RegistryStore; the records of signed announcements in
--     Registry/Recording, what a registry exports in Registry/Export. Registry/Log has runs of
--     requests (Run), what they keep true of the identity log, and the checks of an importer on it;
--     Registry/NodeKeys, Registry/Roots, Registry/Ahead and Registry/Refused what else follows, and
--     Registry/Mirrors which imported source replaces another.
-- Tests has a small restaurant, tests by evaluation, and an example for each result.
--
-- How they interact: process_accepted_order runs each lane through _execute_durable_lane, which
-- claims a row of the outbox, runs the lane, and records how it ended. A lane builds each event from
-- the manifest of its module (build_result_event), checks it against the contract of the enabled
-- modules and the recorded events of the order (record_order_flow_event), and updates the order.
--
-- Each function of the source is a function of the same name, without a leading underscore. Code that
-- reads or writes the database is of type Exec: from a store to a result or an exception, and the
-- store; what was written before an exception stays written, as each call commits by itself.
-- PilotConfig is the record Config, with the fields that the flow reads, and what the program calls
-- and does not implement is the record World: the reference catalog's files, the hash of a request,
-- the random roll, the parts of a URL, the two calls of a payment service, the sensor's file and
-- device, the writes of the print drivers. Both are arguments of the definitions that use them.
--
-- In the registry a check is of type Checked, an exception or nothing, and a request a function from
-- the store to a result and the store. What the registry calls and does not implement is the record
-- Outside: the verification and the making of signatures (p4p_identity.py over a cryptography
-- library, which raises ValueError on what is no key), SHA-256 of JSON, datetime.fromisoformat and
-- urlsplit. A signed payload is the record that is signed, without the canonical JSON of it. A time
-- is microseconds, and each request reads the clock once. The identity records, a dict by node and
-- key, are a list of records that hold their keys. Requests are served one at a time.
--
-- Simplifications that no decision of the program depends on: times are numbers (whole ticks of a
-- clock of any rate in the rate limiter), one reading of the clock for a whole call (Store.now), and
-- order ids and status tokens are arguments of what creates an order; a set is a list of which only
-- membership is read; columns of JSON stand for the values that they hold; the fields of a payment
-- service's reply are texts or missing; the text of an exception is the exception, and is not cut to
-- 500 characters; texts of tickets, messages of rejections and translations are left out; str.lower
-- and str.strip are exact up to U+00FF. Where the source gives a keyword argument at each of many
-- calls, the arguments of the event are a record.
--
-- There is no fuel: every loop of the source runs over a list, and is structural recursion.
--
-- Not modelled: the registry's relayed imports, synchronisation, curated index, claims, discovery
-- and database, the demo node, the lab, scripts and user interfaces, menu import, hardware
-- profiles, languages, signatures, the reading of the configuration, money formatting, the choice
-- of a rate limit's rule and of the client's address, the limit on bodies, and the parts of
-- routes.py and runtime.py that concern none of the above.
pub mod Prelude
pub mod Core
pub mod Pilot
pub mod Registry
pub mod Tests
