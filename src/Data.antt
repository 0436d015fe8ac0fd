-- ===== src/Data.antt =====
-- cyber/data: the buffers between the writers and the readers of a channel.
pub mod CacheBuffer
pub mod ChannelBuffer
pub mod Visitor
pub mod AllLatest
pub mod Dispatcher
mod Tests
