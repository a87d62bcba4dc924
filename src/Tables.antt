-- ===== src/Tables.antt =====
-- The two tables that a thread shares with its forks: open files (userprog/nachostabla.cc) and
-- semaphores (userprog/NachosSems.cc), each an array with a bit map of its used slots.
pub mod OpenFiles
pub mod Sems
mod Tests
