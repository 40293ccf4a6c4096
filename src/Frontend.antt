-- ===== src/Frontend.antt =====
-- data_feed/frontend: the clients' side of the feed.
pub mod Wire
pub mod Stream
pub mod Session
pub mod Outbox
pub mod Server
