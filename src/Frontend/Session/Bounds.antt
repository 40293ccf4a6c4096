-- ===== src/Frontend/Session/Bounds.antt =====
-- What a client that never reads, or that sends commands without end, can make a session hold.
use strategy_nodes.Common.{
  ℕ, suc, ◌-◌, ◌≡◌, ◌≤◌, ◌<◌, refl, ℤ, Bool, true, false, not, ◌&&◌, List, [], ◌∷◌, ◌++◌, ◌==◌, leb,
  length, length-append, if◌then◌else◌, arith, is_empty,
}
use strategy_nodes.Frontend.Wire.{Event, heartbeat_event, Payload, make_payload, book_field_number}
use strategy_nodes.Frontend.Session.{
  Session, Outgoing, Effect, Incoming, broken, unparsed, command, enqueue, push, pop, write_front,
  written, read, accept_command, command_done, beat, close, max_queued_frames, max_backlog_frames,
  max_pending_commands, heartbeat_period,
}
use strategy_nodes.Frontend.Session.Steps.{
  Step, enqueues, ends, reads, dones, beats, closes, step, run,
}

module _ {B : Type 0} where
  abbrev pub IsBounded : Session B → Type 0
  IsBounded s =
      (length s.outgoing ≤ max_backlog_frames) × (s.pending_commands ≤ max_pending_commands)

  pop-IsBounded : (s : Session B) → IsBounded s → IsBounded (pop s)
  unfolding pop
  pop-IsBounded s (f, c) = (popped s.outgoing f, c)
    where
      popped :
          (os : List (Outgoing B))
          → length os ≤ max_backlog_frames
          → length (elim os as (λ _. List (Outgoing B)) [ [] ↦ [] | front ∷ rest ↦ rest ])
            ≤ max_backlog_frames
      popped [] h = h
      popped (o ∷ os) h = omega (arith, h)

module _ {B : Type 0} (C : Type 0) where
  -- A result whose session is within the bounds.
  abbrev Keeps : Session B × List (Effect B C) → Type 0
  Keeps result = IsBounded result.0

  Keeps-if :
      (b : Bool) (x y : Session B × List (Effect B C))
      → (b ≡ true → Keeps x)
      → (b ≡ false → Keeps y)
      → Keeps (if b then x else y)
  Keeps-if true x y f g = f refl
  Keeps-if false x y f g = g refl

  close-Keeps : (s : Session B) → IsBounded s → Keeps (close s)
  unfolding close
  close-Keeps s h = Keeps-if s.closed (s, []) (record s { closed = true }, _) (λ _. h) (λ _. h)

  write_front-Keeps : (s : Session B) (time : ℤ) → IsBounded s → Keeps (write_front s time)
  unfolding write_front
  write_front-Keeps s time h = started s.outgoing h.0
    where
      started :
          (os : List (Outgoing B))
          → length os ≤ max_backlog_frames
          → Keeps (write_front (record s { outgoing = os }) time)
      started [] f = (f, h.1)
      started (o ∷ os) f = (f, h.1)

  push-Keeps :
      (s : Session B) (now : ℕ) (time : ℤ) (p : Payload B)
      → IsBounded s
      → length s.outgoing < max_backlog_frames
      → Keeps (push s now time p)
  unfolding push
  push-Keeps s now time p h room =
      let frame : Outgoing B = record { sequence = s.next_sequence; payload = p } in
      let pushed : Session B = record s {
        outgoing = s.outgoing ++ frame ∷ [];
        next_sequence = suc s.next_sequence;
        last_enqueue = now;
      } in
      let fits : length (s.outgoing ++ frame ∷ []) ≤ max_backlog_frames =
        omega (arith, length-append s.outgoing (frame ∷ []), room) in
      Keeps-if (length pushed.outgoing == 1) (write_front pushed time) (pushed, [])
        (λ _. write_front-Keeps pushed time (fits, h.1)) (λ _. (fits, h.1))

  enqueue-Keeps :
      (s : Session B) (now : ℕ) (time : ℤ) (p : Payload B)
      → IsBounded s
      → Keeps (enqueue s now time p)
  unfolding enqueue
  enqueue-Keeps s now time p h =
      let many = leb max_queued_frames (length s.outgoing) in
      let too_many = leb max_backlog_frames (length s.outgoing) in
      let book = p.field_number == book_field_number in
      let skipping : Session B × List (Effect B C) =
        (record s { next_sequence = suc s.next_sequence }, []) in
      let pushing = push {C = C} s now time p in
      let closing = close {C = C} s in
      let rest = if too_many then closing else pushing in
      let full = if book then skipping else rest in
      Keeps-if s.closed (s, []) (if many then full else pushing) (λ _. h)
        (λ _.
          Keeps-if many full pushing
            (λ _.
              Keeps-if book skipping rest (λ _. h)
                (λ _.
                  Keeps-if too_many closing pushing (λ _. close-Keeps s h)
                    (λ room. push-Keeps s now time p h (ground arith))))
            (λ room. push-Keeps s now time p h (ground arith)))

  written-Keeps :
      (s : Session B) (failed : Bool) (time : ℤ) → IsBounded s → Keeps (written s failed time)
  unfolding written
  written-Keeps s failed time h =
      let ended = pop s in
      let failing = close {C = C} (record s { in_flight = false }) in
      let next = write_front {C = C} ended time in
      let ok = not ended.closed && not (is_empty ended.outgoing) in
      let going = if ok then next else (ended, []) in
      Keeps-if (not s.in_flight) (s, []) (if failed then failing else going) (λ _. h)
        (λ _.
          Keeps-if failed failing going (λ _. close-Keeps (record s { in_flight = false }) h)
            (λ _.
              Keeps-if ok next (ended, []) (λ _. write_front-Keeps ended time (pop-IsBounded s h))
                (λ _. pop-IsBounded s h)))

  accept-Keeps :
      (s : Session B) (incoming : Incoming C)
      → IsBounded s
      → s.pending_commands < max_pending_commands
      → Keeps (accept_command s incoming)
  unfolding accept_command
  accept-Keeps s broken h room = close-Keeps s h
  accept-Keeps s unparsed h room = (h.0, omega (arith, room))
  accept-Keeps s (command c) h room = (h.0, omega (arith, room))

  read-Keeps : (s : Session B) (incoming : Incoming C) → IsBounded s → Keeps (read s incoming)
  unfolding read
  read-Keeps s incoming h =
      let closing = close {C = C} s in
      let accepted = accept_command s incoming in
      let full = leb max_pending_commands s.pending_commands in
      Keeps-if s.closed closing (if full then closing else accepted) (λ _. close-Keeps s h)
        (λ _.
          Keeps-if full closing accepted (λ _. close-Keeps s h)
            (λ room. accept-Keeps s incoming h (ground arith)))

module _ {B C : Type 0} (encode : Event → B) where
  step-IsBounded : (s : Session B) (st : Step B C) → IsBounded s → IsBounded (step encode s st).0
  unfolding step command_done beat
  step-IsBounded s (enqueues now time p) h = enqueue-Keeps C s now time p h
  step-IsBounded s (ends failed time) h = written-Keeps C s failed time h
  step-IsBounded s (reads incoming) h = read-Keeps C s incoming h
  step-IsBounded s dones h = (h.0, omega (arith, h.1))
  step-IsBounded s (beats now time) h =
      let p = make_payload encode heartbeat_event in
      let late = leb heartbeat_period (now - s.last_enqueue) in
      let beating = enqueue {C = C} s now time p in
      Keeps-if C s.closed (s, []) (if late then beating else (s, [])) (λ _. h)
        (λ _. Keeps-if C late beating (s, []) (λ _. enqueue-Keeps C s now time p h) (λ _. h))
  step-IsBounded s closes h = close-Keeps C s h

  pub run-IsBounded :
      (s : Session B) (sts : List (Step B C)) → IsBounded s → IsBounded (run encode s sts).0
  unfolding run
  run-IsBounded s [] h = h
  run-IsBounded s (st ∷ sts) h = run-IsBounded (step encode s st).0 sts (step-IsBounded s st h)
