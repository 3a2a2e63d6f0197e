-- ===== src/Trap.antt =====
-- src/kernel/exception.c, exception.h, scalls.h and timer.c: system calls, page faults and timer
-- interrupts, in supervisor and in machine mode.
pub mod Scall
pub mod Fault
pub mod Hart
pub mod Switch
pub mod FreeVpn
pub mod Turn
pub mod Fair
pub mod Dispatch
pub mod Scheduled
pub mod FreeSlot
pub mod Starts
pub mod Yields
pub mod Keeps
pub mod Serves
pub mod Session
mod SessionTests
pub mod Parked
pub mod Resumes
mod TurnTests
pub mod Tests
