-- ===== src/Threads/Inv.antt =====
-- What holds of the threads, the ready list and the semaphores of threads/ between two steps.
pub mod Defs
pub mod Put
pub mod Place
pub mod Sched
pub mod Synch
pub mod Wake
pub mod Free
pub mod Steps
