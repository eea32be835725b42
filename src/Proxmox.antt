-- ===== src/Proxmox.antt =====
-- internal/proxmox/client.go: the client of the Proxmox API, the cache of its rule list, and the
-- operations that bring a guest's firewall rules in line with the allow list.
pub mod Api
pub mod Row
pub mod Resolve
pub mod Rules
pub mod Client
pub mod Display
pub mod Reconcile
pub mod Sample
mod Tests
