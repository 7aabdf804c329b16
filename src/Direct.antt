-- ===== src/Direct.antt =====
-- SmartDashboard_Interface_direct: updates between processes through a ring in shared memory.
pub mod Types
pub mod Bytes
pub mod Copy
pub mod Codec
pub mod Ring
pub mod Queue
pub mod Publisher
pub mod Retained
pub mod Subscriber
