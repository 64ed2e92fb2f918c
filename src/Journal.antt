-- ===== src/Journal.antt =====
-- crates/matchx-journal/src: the write-ahead log.
pub mod Outcome
pub mod Bytes
pub mod Codec
pub mod RoundTrip
pub mod Records
pub mod Refusal
pub mod Reader
pub mod Scan
pub mod Logs
pub mod Tests
pub mod Streaming
pub mod Writer
pub mod AsyncJournal
