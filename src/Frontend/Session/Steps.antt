-- ===== src/Frontend/Session/Steps.antt =====
-- A session's handlers in any order, the frames that it wrote, and the payloads that it numbered.
use strategy_nodes.Common.{
  ℕ, suc, ◌-◌, ◌≡◌, ℤ, Bool, true, not, ◌&&◌, List, [], ◌∷◌, ◌++◌, ◌==◌, leb, length, if◌then◌else◌,
}
use strategy_nodes.Frontend.Wire.{Event, heartbeat_event, Payload, make_payload, book_field_number}
use strategy_nodes.Frontend.Session.{
  Session, Outgoing, Effect, writes, executes, rejects, forgets, Incoming, enqueue, written, read,
  command_done, beat, close, max_backlog_frames, heartbeat_period,
}

module _ {B C : Type 0} where
  -- The frames that went out, in order.
  abbrev pub frames : List (Effect B C) → List (Outgoing B)
  frames [] = []
  frames (writes time f ∷ es) = f ∷ frames es
  frames (executes c ∷ es) = frames es
  frames (rejects ∷ es) = frames es
  frames (forgets ∷ es) = frames es

module _ {B : Type 0} where
  abbrev pub is_book : Payload B → Bool
  is_book payload = payload.field_number == book_field_number

  -- The payload, where the session gives it the next number, whether or not it queues it.
  unfoldable pub numbered : Session B → Payload B → List (Payload B)
  numbered s payload =
      if s.closed
      then []
      else if leb max_backlog_frames (length s.outgoing) && not (is_book payload)
      then []
      else payload ∷ []

-- The handlers: each carries what its environment brings.
pub data Step (B C : Type 0) : Type 0 where
  enqueues : ℕ → ℤ → Payload B → Step B C
  ends : Bool → ℤ → Step B C
  reads : Incoming C → Step B C
  dones : Step B C
  beats : ℕ → ℤ → Step B C
  closes : Step B C

module _ {B C : Type 0} (encode : Event → B) where
  unfoldable pub step : Session B → Step B C → Session B × List (Effect B C)
  step s (enqueues now time payload) = enqueue s now time payload
  step s (ends failed time) = written s failed time
  step s (reads incoming) = read s incoming
  step s dones = command_done s
  step s (beats now time) = beat encode s now time
  step s closes = close s

  -- The payloads that a step numbers.
  unfoldable pub numbers : Session B → Step B C → List (Payload B)
  numbers s (enqueues now time payload) = numbered s payload
  numbers s (ends failed time) = []
  numbers s (reads incoming) = []
  numbers s dones = []
  numbers s (beats now time) =
      if s.closed
      then []
      else if leb heartbeat_period (now - s.last_enqueue)
      then numbered s (make_payload encode heartbeat_event)
      else []
  numbers s closes = []

  -- The session after the steps, the frames that went out, and the payloads that were numbered.
  unfoldable pub run :
      Session B → List (Step B C) → Session B × List (Outgoing B) × List (Payload B)
  run s [] = (s, [], [])
  run s (st ∷ sts) =
      let (s', effects) = step s st in
      let (s'', sent, log) = run s' sts in (s'', frames effects ++ sent, numbers s st ++ log)

-- `Kept n log sent`: the frames carry the payloads of the log, numbered from `n`, but for some
-- Books, whose numbers are skipped.
pub data Kept {B : Type 0} : ℕ → List (Payload B) → List (Outgoing B) → Type 0 where
  kept_none : (n : ℕ) → Kept n [] []
  keep :
      (n : ℕ) (payload : Payload B) (log : List (Payload B)) (sent : List (Outgoing B))
      → Kept (suc n) log sent
      → Kept n (payload ∷ log) (record { sequence = n; payload = payload } ∷ sent)
  skip :
      (n : ℕ) (payload : Payload B) (log : List (Payload B)) (sent : List (Outgoing B))
      → is_book payload ≡ true
      → Kept (suc n) log sent
      → Kept n (payload ∷ log) sent
