-- ===== src/Exec.antt =====
-- src/exec: the loading of an executable and of its modules.
pub mod Elf
pub mod Modules
pub mod Segment
pub mod Segments
pub mod Placement
mod Tests
