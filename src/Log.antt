-- ===== src/Log.antt =====
-- core/log and core/store: the queue of log lines that are not yet written, and the store around it.
pub mod Queue
pub mod Store
pub mod Level
pub mod Output
pub mod Thread
