-- ===== src/Types.antt =====
-- rust/src/types.rs: catalog topics, value contracts and the conversion of payloads.
pub mod Wrapper
pub mod Topic
