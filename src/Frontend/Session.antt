-- ===== src/Frontend/Session.antt =====
-- data_feed/frontend/server.cc, class `Server::Session`: a connection's outgoing frames.
-- Each step is a handler on the network thread, or `CommandDone`, which is atomic. Asio's part is
-- `in_flight`: whether a write of the front frame is pending, whose handler alone can report that
-- it ended. Times are nanoseconds of the steady clock, and of the system clock for a send time.
pub mod Steps
pub mod Order
pub mod Handlers
pub mod Bounds
pub mod Pending
pub mod Tests
use strategy_nodes.Common.{
  ℕ, suc, ◌+◌, ◌-◌, ◌*◌, ℤ, Bool, true, false, not, ◌&&◌, List, [], ◌∷◌, ◌++◌, ◌==◌, leb, length,
  is_empty, if◌then◌else◌,
}
use strategy_nodes.Frontend.Wire.{Event, heartbeat_event, Payload, make_payload, book_field_number}

abbrev pub max_queued_frames : ℕ
max_queued_frames = 4096

abbrev pub max_backlog_frames : ℕ
max_backlog_frames = 2 * max_queued_frames

abbrev pub max_pending_commands : ℕ
max_pending_commands = 64

abbrev pub heartbeat_period : ℕ
heartbeat_period = 5 * 1000000000

-- A frame that waits to go out. Its envelope is written as it goes out.
pub record Outgoing (B : Type 0) : Type 0 where
  pub sequence : ℕ
  pub payload : Payload B

pub record Session (B : Type 0) : Type 0 where
  pub outgoing : List (Outgoing B)
  pub next_sequence : ℕ
  pub last_enqueue : ℕ
  pub closed : Bool
  pub pending_commands : ℕ
  pub in_flight : Bool

-- What a step does besides: a frame starts to go out at a system time; a command is run; a reply
-- to a frame that is not a command is queued; the server is told to forget the session.
pub data Effect (B C : Type 0) : Type 0 where
  writes : ℤ → Outgoing B → Effect B C
  executes : C → Effect B C
  rejects : Effect B C
  forgets : Effect B C

module _ {B : Type 0} where
  unfoldable pub make_session : ℕ → Session B
  make_session now = record {
    outgoing = [];
    next_sequence = 0;
    last_enqueue = now;
    closed = false;
    pending_commands = 0;
    in_flight = false;
  }

  -- `pop_front` of the queue.
  unfoldable pub pop : Session B → Session B
  pop s = record s {
    in_flight = false;
    outgoing = elim s.outgoing [ [] ↦ [] | front ∷ rest ↦ rest ];
  }

-- What a read brings: an error, something that is no command, or a command.
pub data Incoming (C : Type 0) : Type 0 where
  broken : Incoming C
  unparsed : Incoming C
  command : C → Incoming C

module _ {B C : Type 0} where
  -- The heartbeat timer is cancelled, and the socket closed.
  unfoldable pub close : Session B → Session B × List (Effect B C)
  close s = if s.closed then (s, []) else (record s { closed = true }, forgets ∷ [])

  unfoldable pub write_front : Session B → ℤ → Session B × List (Effect B C)
  write_front s send_time_ns = elim s.outgoing [
    | [] ↦ (s, [])
    | front ∷ rest ↦ (record s { in_flight = true }, writes send_time_ns front ∷ [])
  ]

  -- The end of `Enqueue`: only the first frame in the queue starts a write.
  unfoldable pub push : Session B → ℕ → ℤ → Payload B → Session B × List (Effect B C)
  push s now send_time_ns payload =
      let pushed : Session B = record s {
        outgoing = s.outgoing ++ record { sequence = s.next_sequence; payload = payload } ∷ [];
        next_sequence = suc s.next_sequence;
        last_enqueue = now;
      } in
      if length pushed.outgoing == 1 then write_front pushed send_time_ns else (pushed, [])

  unfoldable pub enqueue : Session B → ℕ → ℤ → Payload B → Session B × List (Effect B C)
  enqueue s now send_time_ns payload =
      let pushed = push s now send_time_ns payload in
      let closing = close s in
      if s.closed
      then (s, [])
      else if leb max_queued_frames (length s.outgoing)
      then (if payload.field_number == book_field_number
          then (record s { next_sequence = suc s.next_sequence }, [])
          else if leb max_backlog_frames (length s.outgoing)
          then closing
          else pushed)
      else pushed

  -- The handler of a write that ended, in an error if `failed`.
  unfoldable pub written : Session B → Bool → ℤ → Session B × List (Effect B C)
  written s failed send_time_ns =
      let ended = pop s in
      let failing = close (record s { in_flight = false }) in
      let next = write_front ended send_time_ns in
      if not s.in_flight
      then (s, [])
      else if failed
      then failing
      else if not ended.closed && not (is_empty ended.outgoing)
      then next
      else (ended, [])

  -- The handler of a read, of a session that is open and has commands to spare.
  unfoldable pub accept_command : Session B → Incoming C → Session B × List (Effect B C)
  accept_command s broken = close s
  accept_command s unparsed = (record s { pending_commands = suc s.pending_commands }, rejects ∷ [])
  accept_command s (command c) =
      (record s { pending_commands = suc s.pending_commands }, executes c ∷ [])

  -- The handler of a read.
  unfoldable pub read : Session B → Incoming C → Session B × List (Effect B C)
  read s incoming =
      let closing = close s in
      let accepted = accept_command s incoming in
      if s.closed
      then closing
      else if leb max_pending_commands s.pending_commands
      then closing
      else accepted

  unfoldable pub command_done : Session B → Session B × List (Effect B C)
  command_done s = (record s { pending_commands = s.pending_commands - 1 }, [])

module _ {B C : Type 0} (encode : Event → B) where
  -- The handler of the heartbeat timer, which was not cancelled.
  unfoldable pub beat : Session B → ℕ → ℤ → Session B × List (Effect B C)
  beat s now send_time_ns =
      let beating = enqueue s now send_time_ns (make_payload encode heartbeat_event) in
      if s.closed
      then (s, [])
      else if leb heartbeat_period (now - s.last_enqueue)
      then beating
      else (s, [])
