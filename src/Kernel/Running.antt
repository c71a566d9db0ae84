-- ===== src/Kernel/Running.antt =====
-- The kernel from its first shell on: the interrupts of the timer and the
-- clock, keys and system calls that
-- student-distrib handles, in any order, and the invariant of processes and terminals that they keep.
pub mod Same
pub mod Calls
pub mod Ticks
pub mod Lines
pub mod Keys
pub mod Steps
pub mod Reach
pub mod Tests
