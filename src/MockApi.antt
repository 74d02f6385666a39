-- ===== src/MockApi.antt =====
-- experiments/mock-partner-api/server.py: the seller API mock. `Tables` is its SQLite file,
-- `Ledger` the in-memory state with the group-committing writer, `Handler` the POST of an order,
-- `Decisions` any sequence of calls, `Durable` what the writer leaves in the file, and `Threads` the
-- interleavings of the handler threads and the writer.
pub mod Tables
pub mod Ledger
pub mod Handler
pub mod Decisions
pub mod Durable
pub mod Threads
