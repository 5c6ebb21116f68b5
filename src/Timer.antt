-- ===== src/Timer.antt =====
-- timer/minheap.c and timer/mh-timer.c: timers in a binary min-heap of pointers.
pub mod Minheap
pub mod MhTimer
mod Tests
