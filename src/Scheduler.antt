-- ===== src/Scheduler.antt =====
-- cyber/croutine and cyber/scheduler: coroutines and the choice of the next one.
pub mod CRoutine
pub mod Context
pub mod Classic
pub mod Choreography
mod Tests
