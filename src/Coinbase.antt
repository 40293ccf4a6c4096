-- ===== src/Coinbase.antt =====
-- data_feed/coinbase: the decoder of Coinbase's "level2" channel, and its requests.
pub mod Levels
pub mod Decoder
pub mod Adapter
pub mod Products
pub mod Tests
