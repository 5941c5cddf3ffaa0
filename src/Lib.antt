-- ===== src/Lib.antt =====
-- fs0 is a replicated file store: clients cut files into bundles of chunks, storage servers keep the
-- compressed chunks in volumes, and a central service knows the files, their bundles, the volumes
-- and where each bundle is stored.
--
-- The parts, with the files that model them:
--   Prelude: lists, Boolean tests, keys, and tables of rows as SQL statements read and write them.
--   Core: crates/fs0-core/src. Error (error.rs), Hash (hash.rs), Compression
--     (compression.rs), Constants (lib.rs), Convert (the integer conversions of utils.rs and the
--     columns of sqlite.rs), Paths (the path functions of utils.rs), Protocol (the records of
--     protocol.rs), and Exec, methods that change a state and may fail.
--   Volume: crates/fs0-volume/src. Types and Db (schema.sql, db.rs), Disk (io_platform.rs),
--     DataFiles (data_file_cache.rs), Store (volume.rs).
--   Central: crates/fs0-central/src. Types (schema.sql), Leases (db/lease.rs), Dirs (db/dir.rs: the
--     cache, Names and Walk for the statements, Reference and Tree for what the table stands for),
--     Volumes (db/volume.rs), Replicas (db/bundle_replica.rs), FileBundles (db/file_bundle.rs), Files
--     (db/file.rs), Events (db/event.rs), Server (the registry of server.rs), StorageRequests
--     (request_handlers/storage.rs), Updates (request_handlers/update.rs: the search for a volume,
--     Begin and Commit), ClientRequests (request_handlers/client.rs).
--   Storage: crates/fs0-storage/src. Server (the state of server.rs, request_handlers/control.rs, and
--     request_handlers/data.rs without the commit of bundles).
--   Client: crates/fs0-client/src. Scheduler (storage_session/request_scheduler.rs) as a step relation:
--     a step runs one critical section of one task, so that a run is any interleaving.
--   Examples: the theorems at concrete values.
-- A function has the name that it has in the code; one that stands for a part of a function, such as
-- `reserve` for the first critical section of `put_chunk`, says so where it stands. The volume uses
-- the database and the data file cache through `on_db` and `on_files`; the central service uses its
-- database through `on_tx`, a transaction that is rolled back by an error, and through
-- `on_central_tx` where the transaction uses the directory cache, which is not rolled back; a storage
-- server uses the volumes through `on_volume`. A handler of the central service whose name is that
-- of a statement ends in `_request`.
--
-- Numbers: a `u64` is a natural number. An INTEGER column takes it below 2^63 only (`column`), sums
-- are checked where the code checks them, and the counter of ids wraps around at 2^64. `usize` has
-- 64 bits. The time is an argument.
--
-- Fuel: the loops over `pread` and `pwrite` have fuel for the length of the buffer, and the batches
-- of bundle ids for their number; each round moves by one at least. The climb to the root has the id
-- of the directory as fuel: in a tree, a parent has a smaller id than its directory.
--
-- Parameters: BLAKE3, the decompression of zstd, and the system calls that open, read, write and sync
-- a data file, with what they document: a write stores a prefix of its bytes and touches no others, a
-- read returns bytes that are there, a sync leaves the bytes alone. The calls may be short and may fail. For updates, the
-- comparison of floating point numbers and the remote call to a storage server; for the scheduler, the
-- handler and the semaphore.
--
-- Not modelled: failures of SQLite other than those of columns and constraints, and row ids that run
-- out; semaphores of the volume, which delay tasks only; two calls of `put_chunk` at once, though its
-- critical sections are separate; a second request to the central service between the critical
-- sections of a handler, such as those of `online_volumes` and `storages` in `register_storage`; a call
-- of the scheduler whose future is dropped while it waits, and a handler that panics, after which
-- the code never completes the slot; a crash between a write and its sync; the Windows system calls and preallocation; the log. Of the central
-- service the dispatch over requests; the reports and connections of the storage server, the sessions
-- of the client, the transport, the configuration and the command line.
pub mod Prelude
pub mod Core
pub mod Volume
pub mod Central
pub mod Storage
pub mod Client
pub mod Examples
