-- ===== src/Lib.antt =====
-- Montr, the server of a distributed media playlist system: playback clients hold WebSocket
-- connections, the server assigns playlists to them by hand, by priority and by schedule, and
-- takes uploads of media in chunks. The server is server/src (TypeScript).
--
-- Parts and files:
-- - Base: what the parts share. Base/Map is the JavaScript Map, in insertion order, and a table
--   with a primary key; Base/Results are calls that change a state and may throw (`AppError` of
--   server/src/api/middleware/error-handler.ts, or `foreign` for what a library or an adapter
--   throws), where what was written before a throw stays written; Base/Texts are numbers in texts,
--   `split` and the order of texts.
-- - Websocket: server/src/websocket/client-manager.ts and its types in
--   server/src/websocket/types.ts. `Manager` is the class ClientConnectionManager. A socket is a
--   number that refers into `sockets`, so that the manager, the newcomer and a late close event
--   can name the same socket; `wire` is what sockets were told. The `ws` package is the record
--   SocketLibrary. Each method is a function of the same name in snake case: Manager (connections
--   and heartbeats), Manager/Send (sends and broadcasts), Manager/Sweep (health checks, stale
--   sessions, closing). Manager/Run has histories of calls.
-- - Database: the statements of server/src/database/adapters/sql-base.adapter.ts on clients and
--   their playlist assignments (ClientRows), over tables that are lists of rows in the order of
--   creation (Tables), with the foreign key of a client's playlist in
--   server/src/database/migrations/001_initial_schema.ts.
-- - Clients: server/src/services/client.service.ts over those tables; to unregister a client
--   also closes its connection (record Server).
-- - Scheduling: server/src/services/schedule.service.ts and server/src/services/scheduling.
--   Conditions, Activation and Conflicts say which schedules are due and which win; Dispatch
--   assigns or interrupts and pushes playlists through the connection manager
--   (server/src/websocket/handlers.ts, sendPlaylistToClient); Service is the evaluator's tick with
--   its deduplication, and the event-triggered schedules. The state is World: the tables, the
--   manager and the maps of the service. `cron-parser` and `date-holidays` are parameters.
-- - Semaphore: server/src/utils/semaphore.ts, with the gap between the wake-up of a waiter and
--   its resumption as a step of its own.
-- - Uploads: server/src/services/chunked-upload.service.ts. Sessions and Completion are the
--   operations over the sessions, the chunk directories and the media files; the storage service,
--   S3 and the results of disk writes are the record Environment, which a call takes and which may
--   differ between calls.
-- - Folders: server/src/services/folder.service.ts with the statements of
--   server/src/database/adapters/sql-base.adapter.ts on folders and the unique constraint of
--   server/src/database/migrations/014_media_folders.ts. Table has the adapter, Service the
--   service; a path is the list of its ids.
-- - Groups: server/src/services/group.service.ts with the rows of groups of
--   server/src/database/adapters/sql-base.adapter.ts, beside the tables of clients.
-- - Playlists: server/src/services/playlist.service.ts with the statements of
--   server/src/database/adapters/sql-base.adapter.ts on playlists and their items, and the
--   constraints of server/src/database/migrations/001_initial_schema.ts. Table has the adapter,
--   Service the service; a position may be negative, as those are that the transaction of a
--   reordering writes first.
-- - Jobs: server/src/services/thumbnail-queue.service.ts and
--   server/src/services/upload-completion-queue.service.ts over their tables in
--   server/src/database/adapters/sql-base.adapter.ts. Table has what the two tables share,
--   Thumbnails the first poller with its crashes, Completions the second, Fifo the queue in order
--   of arrival that the first poller implements. What the processing of a job comes to is an
--   argument of the calls.
-- - Handlers: the handlers of client messages in server/src/websocket/handlers.ts over the state
--   Live, which has the World of the scheduler and the tables of notifications and telemetry.
--   Notifications is server/src/services/notification.service.ts, whose deliveries are a parameter;
--   Messages has registration, status and heartbeats, Reports errors, telemetry and log events.
-- - Telemetry: server/src/services/telemetry.service.ts with the range query of
--   server/src/database/adapters/sql-base.adapter.ts. Service has the thresholds; a percentage is
--   a natural number or compared as a fraction, without the rounding of floating point numbers, and a
--   temperature below zero, which is never near the threshold, is not in the model.
-- - Cluster: server/src/cluster/session-store.ts, with the regular expressions of `keys` a
--   parameter.
--
-- Time, numbers and loops: every call takes the time at which it runs. Numbers are natural
-- numbers; a difference of times that would be negative is 0, which no test against a positive
-- limit distinguishes. All loops are structural recursions but two: the loop that claims a job
-- and the loop of a poller run on fuel, the number of the queued jobs and one.
--
-- Not modelled: the creation and change of schedules and their simulation, the deletion of folders,
-- the removal of orphaned chunk directories, which goes by file times;
-- the commands, interrupts and group pushes of server/src/websocket/handlers.ts, which
-- the REST routes call, the REST routes and their
-- validation, the other database adapters, media processing, storage,
-- the web interface, and the client in Rust; the order of groups by their names; logging; and the operations that run between two
-- awaits of one call. A part of the program that a model calls but that is not under its control
-- is a parameter of it.
pub mod Base
pub mod Clients
pub mod Cluster
pub mod Database
pub mod Folders
pub mod Groups
pub mod Handlers
pub mod Jobs
pub mod Playlists
pub mod Scheduling
pub mod Semaphore
pub mod Telemetry
pub mod Uploads
pub mod Websocket
