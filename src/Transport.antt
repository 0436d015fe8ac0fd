-- ===== src/Transport.antt =====
-- cyber/transport: shared memory, the messages' headers and the history of a writer.
pub mod ShmConf
pub mod Block
pub mod Segment
pub mod ReadableInfo
pub mod ConditionNotifier
pub mod MessageInfo
pub mod History
pub mod Hybrid
mod Tests
