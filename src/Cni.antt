-- ===== src/Cni.antt =====
-- cmd/cni/rubble.go: the commands of the CNI plugin. The connection to the daemon is a parameter,
-- and so is the JSON decoder.
pub mod Args
pub mod Parse
pub mod Commands
pub mod Setup
pub mod Deletion
pub mod Tests
