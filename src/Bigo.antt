-- ===== src/Bigo.antt =====
-- src/bigo: the client of the Bigo recharge API and its retry queue.
pub mod Message
pub mod Queue
pub mod Request
pub mod Service
pub mod Retry
pub mod Frame
