-- ===== src/Frontend/Session/Tests.antt =====
-- A connection over serialized messages that are the messages themselves.
use strategy_nodes.Common.{ℕ, true, false, pos, List, [], ◌∷◌}
use strategy_nodes.Frontend.Wire.{Event, heartbeat_event, Payload}
use strategy_nodes.Frontend.Session.{make_session, unparsed, command}
use strategy_nodes.Frontend.Session.Steps.{Step, enqueues, ends, reads, dones, beats, closes, run}
use strategy_nodes.Frontend.Session.Order.{InOrder}
use strategy_nodes.Frontend.Session.Handlers.{frames-InOrder}
use strategy_nodes.Common.{length, ◌≤◌}
use strategy_nodes.Frontend.Session.Pending.{outstanding, session-IsBounded}

abbrev own_bytes : Event → Event
own_bytes e = e

abbrev payload : ℕ → Payload Event
payload n = record { field_number = n; bytes = heartbeat_event }

abbrev steps : List (Step Event ℕ)
steps =
    reads (command 7)
    ∷ enqueues 10 (pos 1) (payload 4)
    ∷ enqueues 11 (pos 2) (payload 7)
    ∷ ends false (pos 3)
    ∷ dones
    ∷ beats 6000000000 (pos 4)
    ∷ reads unparsed
    ∷ ends false (pos 5)
    ∷ closes
    ∷ ends true (pos 6)
    ∷ []

frames-InOrder_example :
    InOrder
      (run own_bytes (make_session 0) steps).0
      (run own_bytes (make_session 0) steps).1
      (run own_bytes (make_session 0) steps).2
frames-InOrder_example = frames-InOrder own_bytes 0 steps

session-IsBounded_example :
    (length (run own_bytes (make_session 0) steps).0.outgoing ≤ 8192)
    × (outstanding own_bytes (make_session 0) 0 steps ≤ 64)
session-IsBounded_example = session-IsBounded own_bytes 0 steps
