-- ===== src/Storage.antt =====
-- pkg/storage/store.go: the map in memory and its copy on disk.
pub mod Memory
pub mod Disk
pub mod Mirror
pub mod Histories
pub mod Restart
pub mod Tests
