-- ===== src/Serial.antt =====
-- ostool-serial/src: the ports, and the one actor that looks for boards on them and leases them.
pub mod Ports
pub mod Discovery
pub mod Events
pub mod Reconcile
pub mod Spawn
pub mod Expected
pub mod Scan
pub mod Lease
pub mod Turns
pub mod Sound
