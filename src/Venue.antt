-- ===== src/Venue.antt =====
-- data_feed/venue: the venues' subscriptions, their ids, the parser and the router.
pub mod Ids
pub mod Parser
pub mod Manager
pub mod Router
pub mod Decoder
pub mod Symbols
