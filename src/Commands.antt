-- ===== src/Commands.antt =====
-- The commands of rust/src/main.rs.
pub mod Clock
pub mod Receive
pub mod Record
pub mod Trace
pub mod Stream
pub mod Play
pub mod RoundTrip
pub mod Publish
pub mod Observe
pub mod Export
pub mod Print
pub mod Echo
pub mod Info
pub mod TypeInfo
pub mod Typed
pub mod Subscribe
