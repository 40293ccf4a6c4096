-- ===== src/Frontend/Session/Pending.antt =====
-- data_feed/frontend/server.cc: the commands that a session has handed over and that are not
-- answered, counted from what it did, and the bounds of a session.
use strategy_nodes.Common.{
  ℕ, suc, ◌+◌, ◌-◌, ◌≡◌, ◌≤◌, refl, ap, sym, ◌∙◌, ℤ, Bool, true, false, not, ◌&&◌, List, [], ◌∷◌,
  ◌++◌, ◌==◌, leb, length, if◌then◌else◌, arith, is_empty,
}
use strategy_nodes.Frontend.Wire.{Event, heartbeat_event, Payload, make_payload, book_field_number}
use strategy_nodes.Frontend.Session.{
  Session, Outgoing, Effect, writes, executes, rejects, forgets, Incoming, broken, unparsed,
  command, make_session, enqueue, push, pop, write_front, written, read, accept_command,
  command_done, beat, close, max_queued_frames, max_backlog_frames, max_pending_commands,
  heartbeat_period,
}
use strategy_nodes.Frontend.Session.Steps.{
  Step, enqueues, ends, reads, dones, beats, closes, step, run,
}
use strategy_nodes.Frontend.Session.Bounds.{run-IsBounded}

module _ {B C : Type 0} where
  -- The commands that were read, to be executed or to be answered with an error.
  abbrev pub handed : List (Effect B C) → ℕ
  handed [] = 0
  handed (writes time f ∷ es) = handed es
  handed (executes c ∷ es) = suc (handed es)
  handed (rejects ∷ es) = suc (handed es)
  handed (forgets ∷ es) = handed es

  -- One of them is answered.
  abbrev pub answered : Step B C → ℕ → ℕ
  answered dones n = n - 1
  answered (enqueues now time p) n = n
  answered (ends failed time) n = n
  answered (reads incoming) n = n
  answered (beats now time) n = n
  answered closes n = n

module _ {B : Type 0} (C : Type 0) where
  abbrev Counts : ℕ → Session B × List (Effect B C) → Type 0
  Counts n result = result.0.pending_commands ≡ n + handed result.1

  Counts-if :
      (n : ℕ) (b : Bool) (x y : Session B × List (Effect B C))
      → Counts n x
      → Counts n y
      → Counts n (if b then x else y)
  Counts-if n true x y f g = f
  Counts-if n false x y f g = g

  close-Counts : (s : Session B) → Counts s.pending_commands (close s)
  unfolding close
  close-Counts s =
      Counts-if s.pending_commands s.closed (s, []) (record s { closed = true }, forgets ∷ [])
        (omega arith) (omega arith)

  write_front-Counts : (s : Session B) (time : ℤ) → Counts s.pending_commands (write_front s time)
  unfolding write_front
  write_front-Counts s time = started s.outgoing
    where
      started :
          (os : List (Outgoing B))
          → Counts s.pending_commands (write_front (record s { outgoing = os }) time)
      started [] = omega arith
      started (o ∷ os) = omega arith

  push-Counts :
      (s : Session B) (now : ℕ) (time : ℤ) (p : Payload B)
      → Counts s.pending_commands (push s now time p)
  unfolding push
  push-Counts s now time p =
      let frame : Outgoing B = record { sequence = s.next_sequence; payload = p } in
      let pushed : Session B = record s {
        outgoing = s.outgoing ++ frame ∷ [];
        next_sequence = suc s.next_sequence;
        last_enqueue = now;
      } in
      Counts-if s.pending_commands (length pushed.outgoing == 1) (write_front pushed time)
        (pushed, []) (write_front-Counts pushed time) (omega arith)

  enqueue-Counts :
      (s : Session B) (now : ℕ) (time : ℤ) (p : Payload B)
      → Counts s.pending_commands (enqueue s now time p)
  unfolding enqueue
  enqueue-Counts s now time p =
      let n = s.pending_commands in
      let pushing = push-Counts s now time p in
      let skipping : Session B × List (Effect B C) =
        (record s { next_sequence = suc s.next_sequence }, []) in
      Counts-if n s.closed (s, []) _ (omega arith)
        (Counts-if n (leb max_queued_frames (length s.outgoing)) _ (push s now time p)
          (Counts-if n (p.field_number == book_field_number) skipping _ (omega arith) (
            Counts-if n (leb max_backlog_frames (length s.outgoing)) (close s) (push s now time p)
              (close-Counts s) pushing))
          pushing)

  written-Counts :
      (s : Session B) (failed : Bool) (time : ℤ) → Counts s.pending_commands (written s failed time)
  unfolding written pop
  written-Counts s failed time =
      let n = s.pending_commands in
      let ended = pop s in
      Counts-if n (not s.in_flight) (s, []) _ (omega arith)
        (Counts-if n failed (close (record s { in_flight = false })) _
          (close-Counts (record s { in_flight = false }))
          (Counts-if n (not ended.closed && not (is_empty ended.outgoing)) (write_front ended time)
            (ended, []) (write_front-Counts ended time) (omega arith)))

  read-Counts :
      (s : Session B) (incoming : Incoming C) → Counts s.pending_commands (read s incoming)
  unfolding read accept_command
  read-Counts s incoming =
      let n = s.pending_commands in
      Counts-if n s.closed (close s) _ (close-Counts s) (
        Counts-if n (leb max_pending_commands n) (close s) (accept_command s incoming)
          (close-Counts s) (accepted incoming))
    where
      accepted : (i : Incoming C) → Counts s.pending_commands (accept_command s i)
      accepted broken = close-Counts s
      accepted unparsed = omega arith
      accepted (command c) = omega arith

module _ {B C : Type 0} (encode : Event → B) where
  step-pending :
      (s : Session B) (st : Step B C)
      → (step encode s st).0.pending_commands
        ≡ answered st (s.pending_commands + handed (step encode s st).1)
  unfolding step command_done beat
  step-pending s (enqueues now time p) = enqueue-Counts C s now time p
  step-pending s (ends failed time) = written-Counts C s failed time
  step-pending s (reads incoming) = read-Counts C s incoming
  step-pending s dones = omega arith
  step-pending s (beats now time) =
      Counts-if C s.pending_commands s.closed (s, []) _ (omega arith)
        (Counts-if C s.pending_commands (leb heartbeat_period (now - s.last_enqueue)) _ (s, [])
          (enqueue-Counts C s now time (make_payload encode heartbeat_event)) (omega arith))
  step-pending s closes = close-Counts C s

  -- The commands handed over and not answered after the steps, from `n` of them.
  unfoldable pub outstanding : Session B → ℕ → List (Step B C) → ℕ
  outstanding s n [] = n
  outstanding s n (st ∷ sts) =
      let (s', effects) = step encode s st in outstanding s' (answered st (n + handed effects)) sts

  outstanding-run :
      (s : Session B) (sts : List (Step B C))
      → outstanding s s.pending_commands sts ≡ (run encode s sts).0.pending_commands
  unfolding outstanding run
  outstanding-run s [] = refl
  outstanding-run s (st ∷ sts) =
      let s' = (step encode s st).0 in
      ap (λ n. outstanding s' n sts) (sym (step-pending s st)) ∙ outstanding-run s' sts

  -- Whatever the client does, a connection never has more than 8192 frames waiting, nor more than
  -- 64 commands that were read, to be executed or to be answered with an error, and not answered.
  pub session-IsBounded :
      (now : ℕ) (sts : List (Step B C))
      → (length (run encode (make_session now) sts).0.outgoing ≤ 8192)
        × (outstanding (make_session now) 0 sts ≤ 64)
  unfolding make_session
  session-IsBounded now sts =
      let (frames, commands) =
        run-IsBounded encode (make_session now) sts (omega arith, omega arith) in
      (frames, omega (arith, commands, outstanding-run (make_session now) sts))
