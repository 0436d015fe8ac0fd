-- ===== src/Timer.antt =====
-- cyber/timer: the timing wheel, the loop that turns it, and the timers that put tasks on it.
pub mod Wheel
pub mod Loop
pub mod Deadline
pub mod Timer
mod Tests
