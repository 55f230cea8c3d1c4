-- ===== src/Lib.antt =====
-- The backend of a structural health monitoring platform (app/). Field devices send measurements, which
-- are decoded, checked and stored; readings that break a channel's rules raise alerts; users with roles and
-- project permissions administer the rest.
--
-- How the parts interact. A data transfer unit (DTU) connects to the TCP server (app/dtus/server.py). The
-- bytes it sends are cut into Modbus RTU frames and decoded into readings
-- (app/plugins/protocols/modbus_rtu_tcp.py and modbus_tcp_adapter.py), which wait in a queue. A consumer
-- takes them off in batches and hands these to `batch_ingest` (app/services/data_service.py): it finds the
-- channels by their codes, writes the table of readings, keeps the latest reading of each channel in Redis
-- and hands the batch to the alert task (app/tasks/alert_tasks.py), which works on the table of alerts by
-- app/services/alert_service.py. Requests of users pass the guards of app/dependencies.py; accounts are
-- kept by app/services/user_service.py, and the first one is made by app/services/setup_service.py.
-- Projects, their devices, the sensors of a device and the channels of a sensor are kept by the services
-- of the same names. An analysis of a channel's readings is a job (app/routers/analysis.py) that a worker
-- runs with a plugin (app/tasks/analysis_tasks.py, app/plugins/analyzers/registry.py) while others may
-- cancel it; what the plugin gives is kept in an object store (app/utils/minio_client.py). So are 3D
-- models and their GLB conversions (app/routers/models.py, app/tasks/model_tasks.py). What is published of
-- a project is pushed to its subscribers (app/ws).
--
-- Files and code.
--   Prelude            shared names and lemmas. Prelude.Outcomes: an exception is a value (`Result`), and a
--                      method that changes a state and may raise is an `Action`, which gives the state back
--                      beside the exception too. Prelude.Rows: a table is the list of its rows; `select`,
--                      `get`, `put` and `delete` are the queries and writes of SQLAlchemy that the code
--                      uses, with the laws of counts and keys in its children and the pages of a sorted
--                      listing in Pages. Prelude.Floats: Python's floats are a parameter.
--   Modbus             crc16_modbus and split_rtu_frames (Frames, with its theorems in the children), the
--                      register decoders of modbus_tcp_adapter.py (Decoders), and
--                      ModbusRtuOverTcpAdapter._decode_frame and decode_stream (RtuAdapter). RoundTrip and
--                      Responses speak of the answers that a slave sends.
--   Dtu                TcpServerManager: _handle_conn and _to_reading_in (Connection, Chunks), and _consumer
--                      as a relation on states (Consumer), since when a wait times out is not determined.
--   Ingest             batch_ingest, _publish_realtime, _dispatch_alert_check and get_latest (Service), and
--                      what a batch leaves (Latest).
--   Alerts             Rules: evaluate_thresholds. Table and Service: the table of app/models/alert.py,
--                      trigger_alert, upsert_alert, close_open_alerts and acknowledge_alert. Task:
--                      _process_readings. The other files prove what these do, from the invariant of the
--                      table (Invariant) up to a reading (Processing) and a batch (Batch); Windows
--                      carries the suppression windows of rules over to their events.
--   Users              Table and Service: app/models/user.py and UserService. Calls and Requests: what each
--                      call, and any sequence of calls, leaves. Operator, Passwords, Listing: one concern
--                      each. Setup: app/services/setup_service.py, and Bootstrap: what it leaves.
--   Access             get_current_user, require_admin, verify_api_key and the three guards of projects
--                      (Guards), decode_token of app/core/security.py, and what they let pass.
--   Storage            put_bytes, get_bytes and delete_object of minio_client.py over the calls of S3.
--   Inventory          Records: the tables of app/models/project.py, device.py, sensor.py and channel.py;
--                      Payloads: app/schemas; Projects, Devices, Sensors, Channels: the four services.
--                      Invariant: what is asked of the tables; Calls and Requests: what each call, and any
--                      sequence of calls, leaves.
--   Analysis           The jobs of app/services/analysis_service.py (Jobs) and the moves between their states
--                      (Transitions). The contract of plugins (Plugins), what a job reads (Samples), `_run`
--                      (Run) and its retries (Task), and the requests on a job (Requests). What other
--                      processes do to the jobs between the sessions of `_run` is an argument, a change of
--                      the table at each of three moments: Agreement and Cancellation are about any such
--                      change and about a cancellation, LostCancellation about one that the failure of
--                      the plugin overwrites, Retries and RoundTrip about runs without one. Which
--                      sessions of `_run` the database fails is an argument too.
--   Models             ModelService (Service), convert_bytes of scripts/model_convert.py (Convert),
--                      app/tasks/model_tasks.py (Task), what a conversion leaves (Settling), and upload,
--                      download and deletion of app/routers/models.py (Requests).
--   Rooms              ConnectionManager of app/ws/manager.py and ws_data of app/ws/endpoints.py as a handler
--                      of events (Server), who is in a room (Membership, Events) and who gets a text
--                      (Broadcast).
--   Platform           app/services/platform_service.py (Settings) and the row of its table (Single).
--   Plugins            Both registries (Registry) and the catalog that the one of analysis plugins implements
--                      (Catalog); the queue and the payloads of mqtt_adapter.py (Mqtt, Backlog).
--   Projects           ProjectService.get_project and assign_user (Members), and what a member may do after an
--                      assignment (Assignment).
--
-- State and operations. A state is a record of the tables and queues that a method works on, and each
-- method is one definition with the method's name, its guards and early returns in the source's order. The
-- writes of one session are seen by its later queries. Machine words are numbers with the masks written
-- out. Times are microseconds from the beginning of the year 1; the start of a suppression window before
-- it is Python's OverflowError.
--
-- Loops. Loops over lists are structural. `split_rtu_frames` runs on fuel, the length of its buffer:
-- every round that goes on drops a byte at least, and Modbus.Frames.Stream shows that with that fuel the
-- loop ends by itself.
--
-- Parameters. Floats, bcrypt, PyJWT, pydantic's EmailStr, the class of characters that `\d` matches, the
-- rows that a join gives to the ingestion, objects of JSON and what Python makes of them, S3, trimesh, the
-- texts that asyncpg takes for times, the classes that the import system finds, what `int` and `float` make
-- of the entries of a register map, what PostgreSQL's COPY, Redis and the broker answer to a batch of
-- readings, which sessions of the database fail in a run of a job, and what the database answers to a
-- deletion that other tables may refer to are arguments. The laws that are asked of them are that bcrypt accepts the password
-- that a hash was made of, and that S3 gives back an object that it took.
--
-- What is not modelled, and why: middleware and the rendering of exceptions, and the routers but for those
-- of analysis jobs and models (glue over the services), e-mail, web hooks, MinIO, Redis and Celery
-- themselves (output to other systems; a push that fails is logged and skipped by the code), the numeric
-- kernels of the analysis plugins and the polled adapters (numpy, scipy, pymodbus and httpx are not of the
-- repository), migrations and scripts. Outside this library are also the lists of analysis jobs, plugins
-- and models, the query of time series, the listing of alerts and the start of the DTU listeners. The free
-- `extra` of a reading from a DTU is left out. Two database sessions at once are modelled for the first
-- deployment and for the run of a job, where a session is one step.
pub mod Prelude
pub mod Access
pub mod Alerts
pub mod Analysis
pub mod Dtu
pub mod Ingest
pub mod Inventory
pub mod Modbus
pub mod Models
pub mod Platform
pub mod Plugins
pub mod Projects
pub mod Rooms
pub mod Storage
pub mod Users
