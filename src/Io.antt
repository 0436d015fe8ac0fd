-- ===== src/Io.antt =====
-- cyber/io: waiting for descriptors.
pub mod Poller
