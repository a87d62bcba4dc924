-- ===== src/FileSys.antt =====
-- The directory filesys/.
pub mod Directory
pub mod FileHeader
pub mod OpenFile
mod Tests
