-- ===== src/Udp.antt =====
-- The UDP links between the three processes: common/managers/ipc/udp and common/models.
pub mod Memory
pub mod Packets
pub mod Layout
pub mod Loop
pub mod Status
pub mod AuthRequest
pub mod Password
