-- ===== src/HashMap.antt =====
-- cyber/base/atomic_hash_map.h, `class AtomicHashMap`: the buckets, the threads that insert into one of
-- them together, and the table.
pub mod Bucket
pub mod Table
mod Tests
