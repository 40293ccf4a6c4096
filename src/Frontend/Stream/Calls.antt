-- ===== src/Frontend/Stream/Calls.antt =====
-- Calls of a stream's methods, one after the other.
use strategy_nodes.Common.{ℕ, List, [], ◌∷◌, ◌++◌}
use strategy_nodes.L2.Message.{Message}
use strategy_nodes.Frontend.Wire.{Event}
use strategy_nodes.Core.Receiver.{Gap}
use strategy_nodes.Frontend.Stream.{Stream, Sends, receive, interrupt, watch, unwatch}

-- A call of one of the stream's methods.
pub data Call : Type 0 where
  receives : Message → Call
  interrupts : Gap → Call
  watches unwatches : ℕ → Call

module _ {B : Type 0} (encode : Event → B) where
  unfoldable pub step : Stream B → Call → Stream B × Sends B
  unfolding receive interrupt watch unwatch
  step s (receives m) = receive encode s m
  step s (interrupts gap) = interrupt s gap
  step s (watches w) = watch encode s w
  step s (unwatches w) = unwatch s w

  -- The stream after the calls, and all that was sent, in order.
  unfoldable pub run : Stream B → List Call → Stream B × Sends B
  run s [] = (s, [])
  run s (c ∷ cs) = let (s', sent) = step s c in let (s'', rest) = run s' cs in (s'', sent ++ rest)
