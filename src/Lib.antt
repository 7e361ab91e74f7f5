-- ===== src/Lib.antt =====
-- A model of the backend of a locomotive telemetry system: sensors send readings to the processor,
-- which filters them, looks for alerts, computes a health index and hands the results on.
--
-- Parts and files
--
--   Base       Python's exceptions as values (Results), dicts as association lists (Dict), lists,
--              integers and tests on the native numbers.
--   Float      Python's float as an interface: the operations that the code uses, with the outcomes
--              that raise, and what is assumed of them, named IsOrdered and IsRounded. Every law
--              is stated for numbers only where NaN breaks it. Float/Fixed is an instance that
--              satisfies all the laws, integers that count units of 1e-9; the examples run on it.
--   Shared     shared/shared/enums.py, constants.py and schemas/: the messages, the specifications
--              of the sensors of both locomotive types and the constants of the formulas.
--   Processor/Filter      services/processor/processor/services/filter_service.py. The module's
--              dict is the state that ema_filter and reset_filter pass on.
--   Processor/Ingestion   .../ingestion_service.py. flatten_reading returns the rows and also the
--              sensors as it leaves them, since the code overwrites sensor.value, and both dicts.
--   Processor/Health      .../health_service.py. Penalties has the loop with the accumulator of
--              damage, Index the rest of calculate_health. The damage stays changed when the
--              function raises, so it is returned beside the result.
--   Processor/Alerts      .../alert_evaluator.py. The clock, generate_id and the format of a float
--              are an Environment.
--   Processor/Router      services/processor/processor/api/router_ingest.py. process_single and
--              process_readings return what the code sends to Redis; a batch keeps what it had
--              gathered before an exception.
--   Processor/Tests       concrete readings and runs.
--   WsServer   services/ws-server/ws_server/connection_manager.py. Queue is the bounded queue of a
--              client, Relay the fan-out of a Redis channel, Manager the connections,
--              Handler the endpoints of handler.py and shared/shared/ws_ticket.py. Code under
--              one lock is one function; a method that takes the lock twice is two of them.
--   DbWriter   services/db-writer/db_writer/services/stream_consumer.py. Adapter is _build_adapter,
--              Consumer the reader, the queue and the workers over the pending entries of Redis.
--   Simulator  services/simulator/simulator/. Locomotive is models/locomotive_state.py; a tick takes
--              the results of `random` as a record, and a route is its name and its length with its
--              position_at. Generators are the sensor values. Runner is runner.py: Fleet the edits
--              of operators, Ticks the rounds with the delivery, Latest, Buffer and Delivery
--              what becomes of the readings, Runs any sequence of rounds and edits.
--   Analytics  services/analytics-service/analytics/aggregator.py. The listener's messages and the
--              publications are functions on the dict of states and the list of changes; a message
--              holds what `str` and `float` make of the decoded fields. Telemetry is
--              .../repositories/telemetry_repository.py: the source that is picked, the gap markers
--              and the downsampling of a chart, over any database. Servicer and Client are
--              .../servicer.py and shared/shared/grpc_client.py with the messages of
--              shared/proto/telemetry.proto: a call is the query, its answer and the way back;
--              what protobuf does with an int32 is a parameter.
--              Fallback is the health that the servicer computes from readings.
--
-- A reading goes through flatten_reading, which filters the values in place, and then through
-- evaluate_alerts and calculate_health, which read the filtered values. The router gathers rows,
-- alerts and health records for the streams, and publishes the messages that the relays of the
-- ws-server fan out to the clients.
--
-- Bounds
--
--   Every loop but the two named below is structural on a list or on the count of its rounds. UUIDs
--   and times are natural numbers.
--   An enum member stands for its text, which is the key of the code's dicts; distinct members have
--   distinct texts. `sum` and `round` are operations of the interface, since CPython compensates
--   sums and rounds the decimal expansion.
--
--   The chunks of DbWriter/Consumer run on fuel, the number of rows: a chunk takes at least one row,
--   so they are enough. So do the batches of Simulator/Runner/Ticks, on the
--   number of readings: a batch takes at least one.
--
-- Not modelled
--
--   Logs and metrics; the validation of the schemas by pydantic; HTTP, Redis, SQL, gRPC and RabbitMQ;
--   the dashboard. The geometry of the routes, the report service, the api gateway and the other
--   parts are named in the manifest with the reason or the plan. Python's sort is an insertion sort
--   here, which agrees with it on keys that are numbers; with a NaN among them the order may differ.
pub mod Analytics
pub mod Base
pub mod DbWriter
pub mod Float
pub mod Processor
pub mod Shared
pub mod Simulator
pub mod WsServer
