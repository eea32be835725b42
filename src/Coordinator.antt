-- ===== src/Coordinator.antt =====
-- internal/coordinator/coordinator.go: the state that joins the allow list and the client.
pub mod Changes
pub mod State
pub mod Refresh
pub mod Firewall
pub mod Dns
pub mod Save
pub mod Configure
pub mod Update
pub mod Start
pub mod History
pub mod Stream
pub mod Sample
mod Tests
