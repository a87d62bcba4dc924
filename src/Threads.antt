-- ===== src/Threads.antt =====
-- The directory threads/.
pub mod LinkedList
pub mod Kernel
pub mod Scheduler
pub mod Synch
pub mod Inv
pub mod System
pub mod Safety
pub mod Leak
mod Tests
