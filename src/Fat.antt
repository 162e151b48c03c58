-- ===== src/Fat.antt =====
-- src/storage/fs/fat.c: the FAT12 filesystem over a storage device.
-- Cache has the cache of FAT clusters, Table the entries of the FAT, File the reading of files,
-- and Find the directory search.
pub mod Cache
pub mod Table
pub mod File
pub mod Find
pub mod Disk
pub mod Coherence
pub mod Entries
pub mod Chain
pub mod Walk
pub mod Contents
pub mod Names
pub mod Matches
mod Tests
