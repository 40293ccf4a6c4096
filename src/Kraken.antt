-- ===== src/Kraken.antt =====
-- data_feed/kraken: the decoder of Kraken's book channel, its checksum, its requests and the bound
-- on its frames.
pub mod Decoder
pub mod Checksum
pub mod MessageSize
pub mod Adapter
pub mod Tests
