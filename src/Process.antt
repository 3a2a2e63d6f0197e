-- ===== src/Process.antt =====
-- src/kernel/process.c and process.h: the process list, the scheduler, the address spaces of processes,
-- and the start and the end of a process.
pub mod State
pub mod Scheduler
pub mod Layout
pub mod Space
pub mod Run
pub mod Choice
pub mod Root
