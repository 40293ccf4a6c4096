-- ===== src/Core/Receiver.antt =====
-- data_feed/core/receiver.h: why a subscription's stream has a gap.

pub data Gap : Type 0 where
  disconnected resubscribing : Gap
