-- ===== src/Ipc.antt =====
-- microkernel/src/ipc.rs: channels with bounded queues, targeted delivery and blocked receivers.
pub mod Queue
pub mod Channel
pub mod Table
mod Tests
