-- ===== src/Crypto.antt =====
-- data_feed/crypto: the checksum of Kraken's books, and what base64 text is accepted.
pub mod Xor
pub mod Crc32
