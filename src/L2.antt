-- ===== src/L2.antt =====
-- data_feed/l2: messages, books, recordings.
pub mod Message
pub mod Serialize
pub mod Book
pub mod Recording
