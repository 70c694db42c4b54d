-- ===== src/Server.antt =====
-- core/lss/session_server.h and session_server.cpp: the session at the server, between the local
-- end (left) and the remote host (right). A handler that asio calls is a `Handler`; an
-- asynchronous operation that it starts, with the handler bound to it, is an `Op` in `issued`.
pub mod State
pub mod Pack
pub mod Answer
pub mod Left
pub mod Right
pub mod Guarded
pub mod Settled
pub mod World
pub mod Assembled
pub mod Streamed
pub mod Delivered
pub mod Udp
pub mod Served
pub mod Dialed
pub mod Connected
