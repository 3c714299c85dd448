-- ===== src/Udp/Layout.antt =====
-- The memory images of the three packets, one module each.
pub mod Status
pub mod Auth
pub mod Password
