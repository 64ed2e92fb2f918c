-- ===== src/Book.antt =====
-- crates/matchx-book/src/lib.rs: the order book.
pub mod Fenwick
pub mod SparseIndex
pub mod PriceMap
pub mod Bitset
pub mod State
pub mod Insert
pub mod Remove
pub mod Levels
pub mod Queue
pub mod Queues
pub mod Depth
pub mod Recenter
pub mod AssocMap
pub mod Ends
pub mod Tests
