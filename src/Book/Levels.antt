-- ===== src/Book/Levels.antt =====
-- What reads of the levels see of writes to the book.
mod Maps
mod Kept
mod Set
mod Prune
pub use Maps.*
pub use Kept.*
pub use Set.*
pub use Prune.*
