-- ===== src/Lib.antt =====
-- JotFS: a deduplicating file store. Clients cut files into chunks, upload the chunks in packfiles and
-- create files as lists of checksums; the server keeps the packfiles in an object store and the
-- metadata in a SQLite database, and removes what no file refers to in a vacuum.
--
-- Prelude, Errors, Step: shared names, the errors as a data type, and the monad of state and error in
--   which stateful code is written. Step.Ensures and Step.Keeps are its logic: what holds where
--   a step returns, and what a step leaves as it is.
-- Bytes, Reader: byte slices, little-endian numbers, and the reads of io and encoding/binary.
-- Sum: internal/sum/sum.go, with its texts in Sum.Hex and Sum.Base64. A `[32]byte` is a list, singled
--   out by `IsSum`; blake3 is a parameter.
-- Compress: internal/compress/compress.go. zstd is a parameter that undoes its own compression.
-- Object.PackIndex, Object.File: internal/object/packindex.go and file.go, the binary formats.
-- Object.Packfile: internal/object/packfile.go. The builder is a record with its writer's bytes and
--   their count; Stream is the counting reader that also feeds the hash; Load is `LoadPackIndex`.
-- Table: the operations of SQL on a table, which is a list of rows in the order of their ids.
-- Db: internal/db/adapter.go over the tables of internal/db/schema/000_base.sql. A transaction is a
--   step on the database, and `update` rolls it back on an error. Packs, Files, Queries, Contents and
--   Vacuums are the operations; Integrity says what a consistent database is, Keys which keys differ,
--   and Refinement how the transactions act on a map from checksums to files.
-- Server.World: what a request acts on, the database and the object store of internal/store/store.go,
--   whose operations are parameters that may fail: a Client of it has the bucket as an argument, a Store
--   is a client in one bucket. World.Effects is the logic of steps on it.
-- Server.Files, Server.Listing, Server.Names, Server.Sections: the requests of
--   internal/server/server.go, the file names, and how `Download` gathers chunks into sections.
-- Server.StartVacuum: `StartVacuum` and the background vacuums, as steps that interleave.
-- Server.Rebuild: how internal/server/vacuum.go makes the index of a packfile that it rebuilds.
-- Server.Vacuum: the run of a vacuum. Steps says which operations of the database it uses.
-- Server.Upload: `PackfileUploadHandler`; when the background put fails is the environment's choice.
-- Server.Status: the requests that only report.
-- S3: internal/store/s3/s3.go over the AWS SDK, which is a parameter. Range has a reader of the ranges
--   that it writes.
-- Startup: cmd/jotfs/main.go, up to the new server. Machine is what it starts on, Params are the
--   chunker parameters in the store, with encoding/json as a parameter, Durable is what is relied on of
--   a client and what else happens to its objects, and Logs are the log levels and the handlers and
--   hooks that write the log. Where the largest of a uint matters it has 32 or 64 bits.
--
-- Numbers are natural numbers; a uint64 that is computed has its wrap-around written out. Times are
-- those after 1970, whose nanoseconds are not negative. The loops of `LoadPackIndex` and of
-- `FilterPackfile` run on fuel of one more than the bytes of their input: a round takes a byte at
-- least, or is the last.
-- A `make([]byte, size)` of more than 2 ^ 48 bytes panics; a smaller one is taken to succeed. A
-- duration is its 64 bits in nanoseconds.
-- The digits of a number of S3 have one round more than the number.
--
-- Not modelled: HTTP and RPC transport, the parsing of flags, listening and signals, generated
-- messages; statements that SQLite fails to run for reasons outside the schema; the locks, since
-- `update` holds the adapter's mutex throughout a transaction; other requests between the
-- transactions of one.
pub mod Prelude
pub mod Errors
pub mod Step
pub mod Bytes
pub mod Reader
pub mod Sum
pub mod Compress
pub mod Object
pub mod Table
pub mod Db
pub mod Server
pub mod Startup
pub mod S3
pub mod Tests
