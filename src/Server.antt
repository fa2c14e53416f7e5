-- ===== src/Server.antt =====
-- ostool-server/src: the allocation of boards (board_pool.rs), one session (session.rs) and the leases
-- of the boards (state.rs), the changes of the inventory (api/router.rs) and the paths of files
-- (tftp/files.rs).
pub mod Outcome
pub mod BoardPool
pub mod Session
pub mod State
pub mod Inventory
pub mod System
pub mod Tftp
pub mod AdminEvents
