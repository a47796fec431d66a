-- ===== src/Traces.antt =====
-- server_traces.py: the traces of the commands that a served simulation answered. They are kept in a
-- ring in memory, and where it is asked for in an SQLite table; both answer the same questions.
pub mod Trace
pub mod Summary
pub mod Ring
pub mod Polls
pub mod Groups
pub mod Counts
pub mod Table
pub mod Order
pub mod Retention
pub mod Newest
pub mod Stored
pub mod ById
pub mod Mirror
pub mod Tests
