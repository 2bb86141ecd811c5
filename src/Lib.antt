-- ===== src/Lib.antt =====
-- A verification library for the measurement backend and the image relay of this repository.
--
-- The backend takes RSSI samples of nodes over MQTT. A bridge parses each message, writes it to
-- a raw backup file, asks the experiment manager under which Run, TestSegment and point the
-- sample is stored, writes it to an SQLite store, and feeds the realtime part: a registry of
-- nodes and a buffer of windows. A person drives the manager over HTTP. The image relay is a
-- process of its own that passes JPEG frames from one producer to viewers.
--
-- Files, with the code that they model:
--   Base          shared names: tests, lists on native numbers, signed integers, text, exceptions
--                 as values, the built-in conversions of Python as a record of parameters
--   Store         backend/store.py, with the tables of db/schema_experiment.sql as lists of rows;
--                 the migration of older files in Store/Migration
--   Experiment    backend/experiment.py, `ExperimentManager`; Experiment/State is its state,
--                 Experiment/Context its queries, Experiment/Requests its calls as values,
--                 Experiment/Offsets the deviations of the devices
--   Parsing       backend/parsing.py
--   Realtime      backend/realtime/window.py, `WindowBuffer`
--   Registry      backend/state.py, `NodeRegistry`
--   Metrics       backend/metrics.py: the counters, and the statistics of latency samples in
--                 Metrics/Latency
--   Bridge        backend/mqtt_bridge.py
--   Relay         image_relay/protocol.py, and of image_relay/server.py the fan-out in Relay/Viewers
--                 and the loop of a producer in Relay/Producer
--   Service       handlers of backend/main.py, with the page's state in Service/Current, the handlers
--                 of offsets and export in Service/Analysis, one round of each background loop of
--                 backend/main.py and backend/realtime/routes.py in Service/Loops, the hub of
--                 backend/realtime/ws.py in Service/Hub, and the import of points of
--                 backend/export.py in Service/Points
--   Database      backend/database.py: the queue of raw samples and the PostgreSQL tables
--   Export        backend/export.py: the summaries, the quality check, and what `export_experiment`
--                 computes of a store
--   Samples       concrete conversions for the examples in the files named Tests
--
-- A method is a function from its arguments and the state to a result or an exception, and the
-- new state; what was written before a raise stays written. The methods run on one event loop,
-- one after the other. A reading of the clock is an argument. Text is that of Python; ids are
-- built as the code builds them. Integers of Python are unbounded. The insertion of a
-- measurement raises where SQLite cannot bind a value; in the rows of experiments, Runs,
-- TestSegments and transmitters and in the times of the clock, integers are taken to be below 2^63,
-- above which the driver raises. Floats are a type of the record `Python`, or of
-- `Statistics` in Export, with the operations that the code uses.
--
-- The loop of `read_exactly` runs on fuel, one round for each byte and one more, which is enough
-- as each `recv` gives at least one byte or ends the stream. The loop of a producer runs on fuel,
-- one round for each frame. The other loops are over lists.
--
-- The background loops sleep between their rounds and run as long as the service; a round is a
-- function of the state. A server's answer to a statement is an argument of the round.
--
-- Not modelled: the downloads and pages of backend/main.py and backend/pages.py, which are text and
-- files; the texts and files that backend/export.py writes; the PostgreSQL server; the sockets and
-- threads of the relay; and the scripts, which have no state of their own or only pass calls on.
pub mod Base
pub mod Store
pub mod Experiment
pub mod Parsing
pub mod Realtime
pub mod Registry
pub mod Metrics
pub mod Bridge
pub mod Relay
pub mod Service
pub mod Database
pub mod Export
pub mod Samples
