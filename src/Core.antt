-- ===== src/Core.antt =====
-- data_feed/core: the vocabulary of the pipeline, JSON lookups, decimals and times.
pub mod Receiver
pub mod Bytes
pub mod Chars
pub mod Format
pub mod Json
pub mod Decimal
pub mod UnixTime
pub mod Spsc
