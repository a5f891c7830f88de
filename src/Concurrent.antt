-- ===== src/Concurrent.antt =====
-- crates/filum-crypto/src/blob.rs, the codec over files, run by several processes at once.
pub mod Program
pub mod Codec
pub mod Agree
pub mod Locality
pub mod Calls
pub mod Buffered
pub mod Footprint
pub mod Processes
pub mod Isolation
pub mod Steps
pub mod Reach
pub mod Jobs
pub mod Publishing
pub mod Agreement
pub mod Destination
pub mod Published
pub mod Complete
pub mod Suffixes
mod Tests
