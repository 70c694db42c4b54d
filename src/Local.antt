-- ===== src/Local.antt =====
-- core/lss/session_local.cpp and session_local.h: the session of the local end, between a SOCKS5
-- client (left) and the server (right).
pub mod State
pub mod Pack
pub mod Left
pub mod Right
pub mod Refused
pub mod Streamed
pub mod World
pub mod Assembled
pub mod Delivered
pub mod Served
