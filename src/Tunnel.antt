-- ===== src/Tunnel.antt =====
-- The local end and the server together: core/lss/session_local.cpp against session_server.cpp.
pub mod Handshake
pub mod Transfer
pub mod KeySize
pub mod Agreed
pub mod Configured
pub mod Carried
pub mod Returned
pub mod Joint
pub mod Established
pub mod Agreement
